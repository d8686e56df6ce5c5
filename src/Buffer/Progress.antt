-- ===== src/Buffer/Progress.antt =====
-- UpdateState in several threads: whether a thread that wants to update gets its turn.
use ced.Base.{
  ℕ, ◌≡◌, ◌≢◌, refl, sym, ◌∙◌, subst, ◌==◌, ◌⊎◌, ◌↔◌, true, false, some, ==_refl, Bool-cases, inl,
  inr, arith,
}
use ced.Outcome.{Outcome, ok, fault}
use ced.Buffer.{EditNotification, Buffer, begin_update, commit_update, declare_no_edit, finish}
use ced.Buffer.Exclusion.{Phases, set_phase, Reached, IsExclusive, Reached-IsExclusive, began}
use ced.Buffer.Exclusion.Phase.{outside, editing}

-- A run of the threads, where thread t applies the function `f t` to its copy, which may succeed, throw
-- or not return.
pub data Run (f : ℕ → EditNotification → Outcome EditNotification)
    : Buffer → Phases → Buffer → Phases → Type 0 where
  done : (b : Buffer) (ph : Phases) → Run f b ph b ph
  enters :
      (b : Buffer) (ph : Phases) (t : ℕ) (st : EditNotification) (b1 : Buffer) {b2 : Buffer}
      {ph2 : Phases}
      → ph t ≡ outside
      → begin_update b ≡ some (st, b1)
      → Run f b1 (set_phase ph t (editing st)) b2 ph2
      → Run f b ph b2 ph2
  leaves :
      (b : Buffer) (ph : Phases) (t : ℕ) (st st' : EditNotification) {b2 : Buffer} {ph2 : Phases}
      → ph t ≡ editing st
      → f t st ≡ ok st'
      → Run f (commit_update b st') (set_phase ph t outside) b2 ph2
      → Run f b ph b2 ph2
  breaks :
      (b : Buffer) (ph : Phases) (t : ℕ) (st : EditNotification) {b2 : Buffer} {ph2 : Phases}
      → ph t ≡ editing st
      → f t st ≡ fault
      → Run f b (set_phase ph t outside) b2 ph2
      → Run f b ph b2 ph2
  says :
      (b : Buffer) (ph : Phases) (c : ℕ) {b2 : Buffer} {ph2 : Phases}
      → Run f (declare_no_edit b c) ph b2 ph2
      → Run f b ph b2 ph2
  ends :
      (b : Buffer) (ph : Phases) (c : ℕ) {b2 : Buffer} {ph2 : Phases}
      → Run f (finish b c) ph b2 ph2
      → Run f b ph b2 ph2

module _ (f : ℕ → EditNotification → Outcome EditNotification) where
  -- `updating_` is clear, or a thread whose function succeeds on its copy is to clear it.
  abbrev pub IsFree : Buffer → Phases → Type 0
  IsFree b ph =
      (b.updating ≡ false)
      ⊎ ((u : ℕ) × (st : EditNotification) × (st' : EditNotification) × (ph u ≡ editing st)
          × (f u st ≡ ok st'))

  not_editing :
      (ph : Phases) (t u : ℕ) (st : EditNotification)
      → set_phase ph t outside u ≡ editing st
      → ph u ≡ editing st
  not_editing ph t u st e = elim (Bool-cases (t == u)) [
    | inl q ↦ let gone : outside ≡ editing st = rw q at e in absurd (ground arith)
    | inr q ↦ rw q at e
  ]

  module _ (t : ℕ) where
    -- A run at whose end the thread is between the critical sections with the current state.
    pub record Enters (b : Buffer) (ph : Phases) : Type 0 where
      pub after : Buffer
      pub phases : Phases
      pub run : Run f b ph after phases
      pub entered : phases t ≡ editing after.state

    begin_update-Enters :
        (b : Buffer) (ph : Phases) → ph t ≡ outside → b.updating ≡ false → Enters b ph
    unfolding begin_update
    begin_update-Enters b ph idle free =
        let b' = record b { updating = true } in
        let ph' = set_phase ph t (editing b.state) in
        record {
          after = b';
          phases = ph';
          run = enters b ph t b.state b' idle (rw free refl) (done b' ph');
          entered = rw (==_refl t) refl;
        }

    IsFree-Enters : (b : Buffer) (ph : Phases) → ph t ≡ outside → IsFree b ph → Enters b ph
    unfolding commit_update
    IsFree-Enters b ph idle (inl free) = begin_update-Enters b ph idle free
    IsFree-Enters b ph idle (inr (u, st, st', at_u, e)) =
        let idle1 : set_phase ph u outside t ≡ outside = elim (Bool-cases (u == t)) [
          | inl q ↦ rw q refl
          | inr q ↦ rw q idle
        ] in
        let next = begin_update-Enters (commit_update b st') (set_phase ph u outside) idle1 refl in
        record {
          after = next.after;
          phases = next.phases;
          run = leaves b ph u st st' at_u e next.run;
          entered = next.entered;
        }

    run-IsFree :
        (b : Buffer) (ph : Phases) (b2 : Buffer) (ph2 : Phases) (st : EditNotification)
        → Run f b ph b2 ph2
        → ph t ≡ outside
        → ph2 t ≡ editing st
        → IsFree b ph
    unfolding declare_no_edit finish
    run-IsFree b ph _ _ st (done _ _) idle at_t =
        let gone : outside ≡ editing st = subst (λ p. p ≡ editing st) idle at_t in
        absurd (ground arith)
    run-IsFree b ph b2 ph2 st (enters _ _ u su b1 idle' e r) idle at_t = inl (began b su b1 e).0
    run-IsFree b ph b2 ph2 st (leaves _ _ u su su' at_u e r) idle at_t = inr (u, su, su', at_u, e)
    run-IsFree b ph b2 ph2 st (breaks _ _ u su at_u e r) idle at_t =
        let idle1 : set_phase ph u outside t ≡ outside = elim (Bool-cases (u == t)) [
          | inl q ↦ rw q refl
          | inr q ↦ rw q idle
        ] in
        elim (run-IsFree b (set_phase ph u outside) b2 ph2 st r idle1 at_t) [
          | inl free ↦ inl free
          | inr (v, sv, sv', at_v, e') ↦ inr (v, sv, sv', not_editing ph u v sv at_v, e')
        ]
    run-IsFree b ph b2 ph2 st (says _ _ c r) idle at_t =
        run-IsFree (declare_no_edit b c) ph b2 ph2 st r idle at_t
    run-IsFree b ph b2 ph2 st (ends _ _ c r) idle at_t =
        run-IsFree (finish b c) ph b2 ph2 st r idle at_t

    -- In every state that the threads reach, a thread outside of UpdateState has a run that takes it
    -- between the critical sections with the current state exactly if `updating_` is clear, or a thread
    -- between them has a function that succeeds on its copy. While a thread is between them whose
    -- function throws or does not return, there is no such run, however long.
    pub Reached-Enters :
        (b : Buffer) (ph : Phases)
        → Reached b ph
        → ph t ≡ outside
        → (Enters b ph ↔ IsFree b ph)
          × ((u : ℕ) (st : EditNotification)
              → ph u ≡ editing st
              → ((st' : EditNotification) → f u st ≢ ok st')
              → ¬ Enters b ph)
    Reached-Enters b ph r idle =
        ((needs, IsFree-Enters b ph idle), λ u st at_u bad e. stuck u st at_u bad (needs e))
      where
        needs : Enters b ph → IsFree b ph
        needs e = run-IsFree b ph e.after e.phases e.after.state e.run idle e.entered

        x : IsExclusive b ph
        x = Reached-IsExclusive b ph r

        stuck :
            (u : ℕ) (st : EditNotification)
            → ph u ≡ editing st
            → ((st' : EditNotification) → f u st ≢ ok st')
            → IsFree b ph
            → ⊥
        stuck u st at_u bad (inl free) = let busy = (x.current u st at_u).0 in ground arith
        stuck u st at_u bad (inr (v, sv, sv', at_v, e)) =
            let same : v ≡ u = x.single v u sv st at_v at_u in
            let copied : sv ≡ st = (x.current v sv at_v).1 ∙ sym (x.current u st at_u).1 in
            bad sv' (subst (λ z. f u z ≡ ok sv') copied (subst (λ w. f w sv ≡ ok sv') same e))
