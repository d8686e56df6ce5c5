-- ===== src/Buffer/Exclusion.antt =====
-- UpdateState in several threads: the steps that they take in turn, and the flag `updating_`.
use ced.Base.{
  ℕ, ◌≡◌, ◌≢◌, refl, sym, ap, ◌∙◌, subst, ◌==◌, true, false, Option, none, some, if◌then◌else◌,
  Bool-cases, inl, inr, arith,
}
use ced.Outcome.{Outcome, ok, fault}
use ced.Buffer.{EditNotification, Buffer, begin_update, commit_update, declare_no_edit, finish}

-- Where a thread is: outside of UpdateState, or between its critical sections with a copy.
pub data Phase : Type 0 where
  outside : Phase
  editing : EditNotification → Phase

abbrev pub Phases : Type 0
Phases = ℕ → Phase

abbrev pub set_phase : Phases → ℕ → Phase → Phases
set_phase ph t p u = if t == u then p else ph u

-- The steps of the threads on the buffer. A thread's function may turn its copy into any state, or
-- throw, which takes the thread out of UpdateState without its second critical section. Of a thread
-- whose function does not return there is no further step.
pub data Step : Buffer → Phases → Buffer → Phases → Type 0 where
  begins :
      (b : Buffer) (ph : Phases) (t : ℕ) (st : EditNotification) (b' : Buffer)
      → ph t ≡ outside
      → begin_update b ≡ some (st, b')
      → Step b ph b' (set_phase ph t (editing st))
  commits :
      (b : Buffer) (ph : Phases) (t : ℕ) (st : EditNotification)
      (f : EditNotification → Outcome EditNotification) (st' : EditNotification)
      → ph t ≡ editing st
      → f st ≡ ok st'
      → Step b ph (commit_update b st') (set_phase ph t outside)
  throws :
      (b : Buffer) (ph : Phases) (t : ℕ) (st : EditNotification)
      (f : EditNotification → Outcome EditNotification)
      → ph t ≡ editing st
      → f st ≡ fault
      → Step b ph b (set_phase ph t outside)
  declares : (b : Buffer) (ph : Phases) (c : ℕ) → Step b ph (declare_no_edit b c) ph
  finishes : (b : Buffer) (ph : Phases) (c : ℕ) → Step b ph (finish b c) ph

-- The states that the threads reach from a buffer that no thread updates.
pub data Reached : Buffer → Phases → Type 0 where
  start : (b : Buffer) → b.updating ≡ false → Reached b (λ _. outside)
  step :
      {b : Buffer} {ph : Phases} (b' : Buffer) (ph' : Phases)
      → Reached b ph
      → Step b ph b' ph'
      → Reached b' ph'

-- A thread that is editing holds the flag and the current state, and is the only one.
pub record IsExclusive (b : Buffer) (ph : Phases) : Type 0 where
  pub current :
      (t : ℕ) (st : EditNotification) → ph t ≡ editing st → (b.updating ≡ true) × (st ≡ b.state)
  pub single : (t u : ℕ) (st su : EditNotification) → ph t ≡ editing st → ph u ≡ editing su → t ≡ u

no_editing : (st : EditNotification) → outside ≢ editing st
no_editing st e = ground arith

same_editing : (st su : EditNotification) → editing st ≡ editing su → st ≡ su
same_editing st su e = cc

pub began :
    (b : Buffer) (st : EditNotification) (b' : Buffer)
    → begin_update b ≡ some (st, b')
    → (b.updating ≡ false) × (st ≡ b.state) × (b' ≡ record b { updating = true })
unfolding begin_update
began b st b' e = elim (Bool-cases b.updating) [
  | inl u ↦ absurd (none_some _ (rw u at e))
  | inr u ↦
      let taken : some (b.state, record b { updating = true }) ≡ some (st, b') = rw u at e in
      (u, ap copy (sym taken), ap after (sym taken))
]
  where
    none_some : (p : EditNotification × Buffer) → none ≢ some p
    none_some p q = ground arith

    copy : Option (EditNotification × Buffer) → EditNotification
    copy none = b.state
    copy (some p) = p.0

    after : Option (EditNotification × Buffer) → Buffer
    after none = b
    after (some p) = p.1

module _ (b : Buffer) (ph : Phases) (x : IsExclusive b ph) (t : ℕ) where
  -- Where nobody was editing, the thread that has begun is the one that is.
  begins_alone :
      b.updating ≡ false
      → (st : EditNotification) (u : ℕ) (su : EditNotification)
      → set_phase ph t (editing st) u ≡ editing su
      → (t ≡ u) × (su ≡ st)
  begins_alone free st u su h = elim (Bool-cases (t == u)) [
    | inl e ↦
        let same : editing st ≡ editing su = rw e at h in
        (ground arith, sym (same_editing st su same))
    | inr e ↦
        let there : ph u ≡ editing su = rw e at h in
        let busy = (x.current u su there).0 in absurd (ground arith)
  ]

  -- After the second critical section, or a throw, nobody is editing.
  commits_all :
      (st : EditNotification)
      → ph t ≡ editing st
      → (u : ℕ) (su : EditNotification) → set_phase ph t outside u ≢ editing su
  commits_all st at_t u su h = elim (Bool-cases (t == u)) [
    | inl e ↦ let gone : outside ≡ editing su = rw e at h in no_editing su gone
    | inr e ↦
        let there : ph u ≡ editing su = rw e at h in
        let same = x.single t u st su at_t there in ground arith
  ]

Step-IsExclusive :
    (b : Buffer) (ph : Phases) (b' : Buffer) (ph' : Phases)
    → Step b ph b' ph'
    → IsExclusive b ph
    → IsExclusive b' ph'
unfolding commit_update declare_no_edit finish
Step-IsExclusive b ph _ _ (begins _ _ t st b' idle e) x =
    let (free, copied, taken) = began b st b' e in
    let alone = begins_alone b ph x t free st in
    subst (λ c. IsExclusive c (set_phase ph t (editing st))) (sym taken)
      (record {
        current = λ u su h. (refl, (alone u su h).1 ∙ copied);
        single = λ u v su sv h k. sym (alone u su h).0 ∙ (alone v sv k).0;
      })
Step-IsExclusive b ph _ _ (commits _ _ t st f st' at_t e) x =
    let none_left = commits_all b ph x t st at_t in
    record {
      current = λ u su h. absurd (none_left u su h);
      single = λ u v su sv h k. absurd (none_left u su h);
    }
Step-IsExclusive b ph _ _ (throws _ _ t st f at_t e) x =
    let none_left = commits_all b ph x t st at_t in
    record {
      current = λ u su h. absurd (none_left u su h);
      single = λ u v su sv h k. absurd (none_left u su h);
    }
Step-IsExclusive b ph _ _ (declares _ _ c) x = record { current = x.current; single = x.single }
Step-IsExclusive b ph _ _ (finishes _ _ c) x = record { current = x.current; single = x.single }

-- In every state that the threads reach, at most one thread is between the two critical sections of
-- UpdateState, `updating_` is set while one is, and its copy is the current state.
pub Reached-IsExclusive : (b : Buffer) (ph : Phases) → Reached b ph → IsExclusive b ph
Reached-IsExclusive b _ (start _ free) = record {
  current = λ t st e. absurd (no_editing st e);
  single = λ t u st su e d. absurd (no_editing st e);
}
Reached-IsExclusive _ _ (step {b = b} {ph = ph} b' ph' r s) =
    Step-IsExclusive b ph b' ph' s (Reached-IsExclusive b ph r)
