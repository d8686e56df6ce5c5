-- ===== src/Buffer/Listeners.antt =====
-- buffer.h and buffer.cc: the listeners of a Buffer, and PushChanges and SinkResponse as whole calls
-- that no other thread interrupts. A listener is the content with which it was started and the
-- commands that it has been given since.
use ced.Base.{
  ap, subst, ◌∙◌, ◌+◌, ◌%◌, ◌^◌, Bool-cases, inl, inr, ℕ, ◌==◌, ◌≡◌, refl, sym, if◌then◌else◌, Bool,
  true, false, Option, none, some, List, [], ◌∷◌, ◌++◌, All, arith,
}
use ced.Proto.{CommandSet}
use ced.Outcome.{Outcome, ok, fault, out_of_fuel, ◌>>=◌}
use ced.Text.{AnnotatedString}
use ced.Text.Integrate.{integrate, integrate_all}
use ced.Buffer.{
  EditNotification, EditResponse, Buffer, begin_update, commit_update, has_updates,
  integrate_response, declare_no_edit, finish,
}

pub record Listener : Type 0 where
  pub id : ℕ
  pub initial : AnnotatedString
  pub updates : CommandSet

-- A buffer and `listeners_`.
pub record Shared : Type 0 where
  pub buffer : Buffer
  pub listeners : List Listener

-- Start, and the destructor.
unfoldable pub start_listener : ℕ → Shared → Shared
start_listener id s = record s {
  listeners = record { id = id; initial = s.buffer.state.content; updates = [] } ∷ s.listeners;
}

unfoldable pub erase_listener : ℕ → List Listener → List Listener
erase_listener id [] = []
erase_listener id (l ∷ ls) =
    let rest = erase_listener id ls in if l.id == id then rest else l ∷ rest

unfoldable pub stop_listener : ℕ → Shared → Shared
unfolding erase_listener
stop_listener id s = record s { listeners = erase_listener id s.listeners }

-- PublishToListeners; `except` is the listener that is left out, if any.
unfoldable pub publish : CommandSet → Option ℕ → List Listener → List Listener
publish cmds except [] = []
publish cmds except (l ∷ ls) =
    let rest = publish cmds except ls in
    let told = record l { updates = l.updates ++ cmds } in
    elim except [ none ↦ told ∷ rest | some id ↦ if l.id == id then l ∷ rest else told ∷ rest ]

-- UpdateState with a function that may fail: none where it would wait.
unfoldable pub update_state :
    (EditNotification → Outcome EditNotification) → Buffer → Option (Outcome Buffer)
update_state f b = elim (begin_update b) [
  | none ↦ none
  | some (st, b1) ↦ some (f st >>= λ st'. ok (commit_update b1 st'))
]

unfoldable pub integrate_content : ℕ → CommandSet → EditNotification → Outcome EditNotification
integrate_content fuel cmds st =
    integrate_all fuel st.content cmds >>= λ content. ok (record st { content = content })

unfoldable pub push_changes : ℕ → CommandSet → Option ℕ → Shared → Option (Outcome Shared)
unfolding publish update_state integrate_content
push_changes fuel cmds except s = elim (update_state (integrate_content fuel cmds) s.buffer) [
  | none ↦ none
  | some r ↦
      some (r >>= λ b. ok (record { buffer = b; listeners = publish cmds except s.listeners }))
]

-- What follows a response: the collaborator is finished, and Shutdown thrown, if it says so.
unfoldable pub after_response : Bool → ℕ → Shared → Bool × Shared
after_response true collaborator s = (true, record s { buffer = finish s.buffer collaborator })
after_response false collaborator s = (false, s)

-- SinkResponse: what is shared after it, and whether it throws Shutdown.
unfoldable pub sink_response : ℕ → ℕ → EditResponse → Shared → Option (Outcome (Bool × Shared))
unfolding publish update_state after_response
sink_response fuel collaborator r s =
    if has_updates r
    then (elim (update_state (integrate_response fuel r) s.buffer) [
      | none ↦ none
      | some result ↦ some (
          result >>= λ b. ok (
            after_response r.done collaborator
              (record { buffer = b; listeners = publish r.content_updates none s.listeners })))
    ])
    else some (
        ok (
          after_response r.done collaborator
            (record s { buffer = declare_no_edit s.buffer collaborator })))

after_ok :
    (r : Outcome AnnotatedString) (next : AnnotatedString → Outcome AnnotatedString)
    (t : AnnotatedString)
    → (r >>= next) ≡ ok t
    → (u : AnnotatedString) × (r ≡ ok u) × (next u ≡ ok t)
after_ok (ok u) next t e = (u, refl, e)
after_ok fault next t e = absurd (ground (arith, e))
after_ok out_of_fuel next t e = absurd (ground (arith, e))

integrate_all-append :
    (fuel : ℕ) (xs ys : CommandSet) (s t u : AnnotatedString)
    → integrate_all fuel s xs ≡ ok t
    → integrate_all fuel t ys ≡ ok u
    → integrate_all fuel s (xs ++ ys) ≡ ok u
unfolding integrate_all
integrate_all-append fuel [] ys s t u e d =
    subst (λ v. integrate_all fuel v ys ≡ ok u) (sym (ap value e)) d
  where
    value : Outcome AnnotatedString → AnnotatedString
    value (ok v) = v
    value fault = s
    value out_of_fuel = s
integrate_all-append fuel (x ∷ xs) ys s t u e d =
    let (v, run, rest) = after_ok (integrate fuel s x) (λ v. integrate_all fuel v xs) t e in
    rw run (integrate_all-append fuel xs ys v t u rest d)

-- What a listener has been given leads from its initial content to a content.
abbrev pub Follows : ℕ → AnnotatedString → Listener → Type 0
Follows fuel content l = integrate_all fuel l.initial l.updates ≡ ok content

publish-Follows :
    (fuel : ℕ) (cmds : CommandSet) (s t : AnnotatedString) (ls : List Listener)
    → integrate_all fuel s cmds ≡ ok t
    → All (Follows fuel s) ls
    → All (Follows fuel t) (publish cmds none ls)
unfolding publish
publish-Follows fuel cmds s t [] run h = tt
publish-Follows fuel cmds s t (l ∷ ls) run h = (
  integrate_all-append fuel l.updates cmds l.initial s t h.0 run,
  publish-Follows fuel cmds s t ls run h.1,
)

module _ (fuel collaborator : ℕ) (r : EditResponse) (s : Shared) where
  -- What SinkResponse does for the listeners.
  pub record Sunk : Type 0 where
    pub shared : Shared
    pub runs : sink_response fuel collaborator r s ≡ some (ok (r.done, shared))
    pub follow : All (Follows fuel shared.buffer.state.content) shared.listeners

  after_response-Sunk :
      (b : Buffer) (ls : List Listener)
      → sink_response fuel collaborator r s
        ≡ some (ok (after_response r.done collaborator (record { buffer = b; listeners = ls })))
      → All (Follows fuel b.state.content) ls
      → Sunk
  unfolding after_response finish
  after_response-Sunk b ls run h = elim (Bool-cases r.done) [
    | inl e ↦ record {
      shared = record { buffer = finish b collaborator; listeners = ls };
      runs = run ∙ rw e refl;
      follow = h;
    }
    | inr e ↦ record {
      shared = record { buffer = b; listeners = ls };
      runs = run ∙ rw e refl;
      follow = h;
    }
  ]

  -- SinkResponse on a buffer that no thread updates, for a response whose commands integrate into the
  -- content: it succeeds, throws Shutdown exactly if the response is done, and a listener whose
  -- commands lead to the content before has commands that lead to the content after it.
  pub sink_response-Sunk :
      (t : AnnotatedString)
      → s.buffer.updating ≡ false
      → integrate_all fuel s.buffer.state.content r.content_updates ≡ ok t
      → All (Follows fuel s.buffer.state.content) s.listeners
      → Sunk
  unfolding sink_response update_state begin_update integrate_response commit_update declare_no_edit
  sink_response-Sunk t free run h = elim (Bool-cases (has_updates r)) [
    | inl e ↦
        let st : EditNotification = record s.buffer.state {
          content = t;
          fully_loaded = if r.become_loaded then true else s.buffer.state.fully_loaded;
          referenced_file_version =
              if r.referenced_file_changed
              then (s.buffer.state.referenced_file_version + 1) % 2 ^ 64
              else s.buffer.state.referenced_file_version;
        } in
        after_response-Sunk (commit_update (record s.buffer { updating = true }) st)
          (publish r.content_updates none s.listeners) (rw e (rw free (rw run refl)))
          (publish-Follows fuel r.content_updates s.buffer.state.content t s.listeners run h)
    | inr e ↦ after_response-Sunk (declare_no_edit s.buffer collaborator) s.listeners (rw e refl) h
  ]
