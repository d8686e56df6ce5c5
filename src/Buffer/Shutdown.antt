-- ===== src/Buffer/Shutdown.antt =====
-- buffer.cc: the destructor of Buffer, and how the threads of its collaborators come to their end.
use ced.Base.{
  ℕ, suc, ◌==◌, ==_refl, ◌≡◌, ◌≢◌, refl, sym, ap, ◌∙◌, subst, ◌&&◌, ◌||◌, not, if◌then◌else◌, true,
  false, Bool-cases, inl, inr, Option, none, some, List, [], ◌∷◌, All, length, map, arith,
}
use ced.Outcome.{Outcome, ok, fault, out_of_fuel}
use ced.Text.{contains}
use ced.Links.{Distinct}
use ced.Buffer.{
  EditNotification, EditResponse, Buffer, begin_update, commit_update, has_updates, set_insert,
  declare_no_edit, finish, all_edits_complete, shuts_down, next_notification,
}
use ced.Buffer.Listeners.{Shared, Listener, update_state, after_response, sink_response}

-- The update with which ~Buffer starts, before it joins the threads.
unfoldable pub shut_down : Buffer → Option (Outcome Buffer)
unfolding update_state
shut_down b = update_state (λ st. ok (record st { shutdown = true })) b

-- SinkResponse of one answer after the other, each of a collaborator.
abbrev pub sink_all : ℕ → List (ℕ × EditResponse) → Shared → Option (Outcome Shared)
sink_all fuel [] s = some (ok s)
sink_all fuel ((c, r) ∷ answers) s = elim (sink_response fuel c r s) [
  | none ↦ none
  | some result ↦ elim result [
    | ok q ↦ sink_all fuel answers q.1
    | fault ↦ some fault
    | out_of_fuel ↦ some out_of_fuel
  ]
]

abbrev pub who : List (ℕ × EditResponse) → List ℕ
who answers = map (λ (a : ℕ × EditResponse). a.0) answers

not_contained : (x : ℕ) (ys : List ℕ) → contains x ys ≡ false → All (λ y. x ≢ y) ys
unfolding contains
not_contained x [] e = tt
not_contained x (y ∷ ys) e = (λ p. ground (arith, p, e), not_contained x ys (ground (arith, e)))

All-not_contained : (x : ℕ) (ys : List ℕ) → All (λ y. x ≢ y) ys → contains x ys ≡ false
unfolding contains
All-not_contained x [] h = refl
All-not_contained x (y ∷ ys) h = ground (arith, h.0, All-not_contained x ys h.1)

contains-set_insert :
    (c x : ℕ) (ys : List ℕ) → contains c (set_insert x ys) ≡ (x == c || contains c ys)
unfolding set_insert contains
contains-set_insert c x ys = elim (Bool-cases (contains x ys)) [
  | inl e ↦ elim (Bool-cases (x == c)) [ inl t ↦ ground (arith, e, t) | inr t ↦ rw (e, t) refl ]
  | inr e ↦ rw e refl
]

set_insert-Distinct : (x : ℕ) (ys : List ℕ) → Distinct ys → Distinct (set_insert x ys)
unfolding set_insert
set_insert-Distinct x ys d = elim (Bool-cases (contains x ys)) [
  | inl e ↦ rw e d
  | inr e ↦ rw e (not_contained x ys e, d)
]

without : ℕ → List ℕ → List ℕ
without x [] = []
without x (y ∷ ys) = let rest = without x ys in if x == y then rest else y ∷ rest

contains-without :
    (c x : ℕ) (ys : List ℕ) → contains c (without x ys) ≡ (not (x == c) && contains c ys)
unfolding without contains
contains-without c x [] = ground arith
contains-without c x (y ∷ ys) = ground (arith, contains-without c x ys)

All-without : (P : ℕ → Type 0) (x : ℕ) (ys : List ℕ) → All P ys → All P (without x ys)
unfolding without
All-without P x [] h = tt
All-without P x (y ∷ ys) h = elim (Bool-cases (x == y)) [
  | inl e ↦ rw e (All-without P x ys h.1)
  | inr e ↦ rw e (h.0, All-without P x ys h.1)
]

without-Distinct : (x : ℕ) (ys : List ℕ) → Distinct ys → Distinct (without x ys)
unfolding without
without-Distinct x [] d = tt
without-Distinct x (y ∷ ys) d = elim (Bool-cases (x == y)) [
  | inl e ↦ rw e (without-Distinct x ys d.1)
  | inr e ↦ rw e (All-without (λ z. y ≢ z) x ys d.0, without-Distinct x ys d.1)
]

length-without_absent :
    (x : ℕ) (ys : List ℕ) → contains x ys ≡ false → length (without x ys) ≡ length ys
unfolding without contains
length-without_absent x [] e = refl
length-without_absent x (y ∷ ys) e = ground (arith, e, length-without_absent x ys)

length-without :
    (x : ℕ) (ys : List ℕ)
    → Distinct ys
    → contains x ys ≡ true
    → length ys ≡ suc (length (without x ys))
unfolding without contains
length-without x [] d e = absurd (ground (arith, e))
length-without x (y ∷ ys) d e = elim (Bool-cases (x == y)) [
  | inl t ↦
      let same : y ≡ x = ground (arith, t) in
      rw t (
        ap suc (
          sym (
            length-without_absent x ys
              (All-not_contained x ys (subst (λ z. All (λ w. z ≢ w) ys) same d.0)))))
  | inr t ↦ rw t (ap suc (length-without x ys d.1 (ground (arith, e, t))))
]

-- Two lists without repetitions that have the same members have the same length.
length_same :
    (xs ys : List ℕ)
    → Distinct xs
    → Distinct ys
    → ((c : ℕ) → contains c xs ≡ contains c ys)
    → length xs ≡ length ys
unfolding contains
length_same [] [] d e h = refl
length_same [] (y ∷ ys) d e h = absurd (ground (arith, h y))
length_same (x ∷ xs) ys d e h =
    let found : contains x ys ≡ true = ground (arith, h x) in
    let absent = All-not_contained x xs d.0 in
    let rest = length_same xs (without x ys) d.1 (without-Distinct x ys e) (λ c.
      elim (Bool-cases (x == c)) [
        | inl t ↦
            let same : x ≡ c = ground (arith, t) in
            ground (arith, contains-without c x ys, t, same, absent)
        | inr t ↦ ground (arith, contains-without c x ys, t, h c)
      ]) in
    ap suc rest ∙ sym (length-without x ys e found)

-- What is known while the answers come in: `ids` have declared that they make no more edits.
record Declared (b : Buffer) (s : Shared) (ids : List ℕ) : Type 0 where
  version : s.buffer.version ≡ b.version
  state : s.buffer.state ≡ b.state
  collaborators : s.buffer.collaborators ≡ b.collaborators
  distinct : Distinct s.buffer.declared_no_edit
  members :
      (c : ℕ)
      → contains c s.buffer.declared_no_edit ≡ (contains c ids || contains c b.declared_no_edit)

module _ (fuel : ℕ) (b : Buffer) where
  -- SinkResponse of an answer without updates.
  sink_quiet :
      (c : ℕ) (r : EditResponse) (s : Shared) (ids : List ℕ)
      → has_updates r ≡ false
      → Declared b s ids
      → (t : Shared) × (sink_response fuel c r s ≡ some (ok (r.done, t))) × Declared b t (c ∷ ids)
  unfolding sink_response after_response declare_no_edit finish contains
  sink_quiet c r s ids q d = elim (Bool-cases r.done) [
    | inl e ↦ (record s { buffer = finish (declare_no_edit s.buffer c) c }, rw q (rw e refl), after)
    | inr e ↦ (record s { buffer = declare_no_edit s.buffer c }, rw q (rw e refl), after')
  ]
    where
      told :
          (x : ℕ)
          → contains x (set_insert c s.buffer.declared_no_edit)
            ≡ ((c == x || contains x ids) || contains x b.declared_no_edit)
      told x = ground (arith, contains-set_insert x c s.buffer.declared_no_edit, d.members x)

      after : Declared b (record s { buffer = finish (declare_no_edit s.buffer c) c }) (c ∷ ids)
      after = record {
        version = d.version;
        state = d.state;
        collaborators = d.collaborators;
        distinct = set_insert-Distinct c s.buffer.declared_no_edit d.distinct;
        members = told;
      }

      after' : Declared b (record s { buffer = declare_no_edit s.buffer c }) (c ∷ ids)
      after' = record {
        version = d.version;
        state = d.state;
        collaborators = d.collaborators;
        distinct = set_insert-Distinct c s.buffer.declared_no_edit d.distinct;
        members = told;
      }

  sink_all_quiet :
      (answers : List (ℕ × EditResponse)) (s : Shared) (ids : List ℕ)
      → All (λ (a : ℕ × EditResponse). has_updates a.1 ≡ false) answers
      → Declared b s ids
      → (t : Shared) × (ids' : List ℕ) × (sink_all fuel answers s ≡ some (ok t))
        × Declared b t ids'
        × ((x : ℕ) → contains x ids' ≡ (contains x (who answers) || contains x ids))
  unfolding contains
  sink_all_quiet [] s ids q d = (s, ids, refl, d, λ x. refl)
  sink_all_quiet ((c, r) ∷ answers) s ids q d =
      let (t, run, d') = sink_quiet c r s ids q.0 d in
      let (u, all, runs, d'', same) = sink_all_quiet answers t (c ∷ ids) q.1 d' in
      (u, all, rw (run, sink_all) runs, d'', λ x. ground (arith, same x))

all_over :
    (b : Buffer) (c v : ℕ)
    → b.version ≡ v
    → b.state.shutdown ≡ true
    → length b.declared_no_edit ≡ length b.collaborators
    → next_notification b c v ≡ shuts_down (finish b c)
unfolding next_notification all_edits_complete
all_over b c v e h l =
    rw e (rw (==_refl v) (rw h (rw l (rw (==_refl (length b.collaborators)) refl))))

-- The destructor's update, on a buffer that no thread updates and whose collaborators are distinct,
-- and after it one answer without updates of some collaborators, where these and the ones that were
-- done before are all the collaborators: every call succeeds, and NextNotification then throws
-- Shutdown for a collaborator that has seen the version of the update.
pub shut_down_lem :
    (fuel : ℕ) (b : Buffer) (ls : List Listener) (answers : List (ℕ × EditResponse))
    → b.updating ≡ false
    → Distinct b.collaborators
    → Distinct b.done
    → All (λ (a : ℕ × EditResponse). has_updates a.1 ≡ false) answers
    → ((c : ℕ) → (contains c (who answers) || contains c b.done) ≡ contains c b.collaborators)
    → (b1 : Buffer) × (t : Shared) × (shut_down b ≡ some (ok b1))
      × (sink_all fuel answers (record { buffer = b1; listeners = ls }) ≡ some (ok t))
      × ((c : ℕ) → next_notification t.buffer c b1.version ≡ shuts_down (finish t.buffer c))
unfolding shut_down update_state begin_update next_notification commit_update all_edits_complete
    contains
shut_down_lem fuel b ls answers free cs done quiet covers =
    let b1 = commit_update (record b { updating = true }) (record b.state { shutdown = true }) in
    let s : Shared = record { buffer = b1; listeners = ls } in
    let start : Declared b1 s [] = record {
      version = refl;
      state = refl;
      collaborators = refl;
      distinct = done;
      members = λ c. refl;
    } in
    let (t, ids, runs, d, same) = sink_all_quiet fuel b1 answers s [] quiet start in
    let full =
      length_same t.buffer.declared_no_edit b.collaborators d.distinct cs
        (λ c. ground (arith, d.members c, same c, covers c)) in
    (
      b1,
      t,
      rw free refl,
      runs,
      λ c.
          all_over t.buffer c b1.version d.version
            (ap (λ (n : EditNotification). n.shutdown) d.state)
            (full ∙ sym (ap length d.collaborators)),
    )
