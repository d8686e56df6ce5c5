-- ===== src/Text/Scan.antt =====
-- The loop with which libclang_collaborator.cc and regex_highlight_collaborator.cc take a text out of
-- an AnnotatedString: its visible characters, and the ID of each.
use ced.Base.{ℕ, zero, suc, ◌==◌, if◌then◌else◌, List, [], ◌∷◌}
use ced.Ids.{Id64, begin_id, end_id}
use ced.Proto.{Bytes}
use ced.Outcome.{Outcome, ok, out_of_fuel, ◌>>=◌, deref}
use ced.Avl.Map.{lookup}
use ced.Text.{AnnotatedString}
use ced.Text.Iterate.{iterator, iter_next}

unfoldable pub scan_from : ℕ → ℕ → AnnotatedString → Id64 → Outcome (Bytes × List Id64)
scan_from fuel zero s pos = out_of_fuel
scan_from fuel (suc rounds) s pos =
    let rest = λ (p : Id64). scan_from fuel rounds s p in
    if pos == end_id
    then ok ([], [])
    else (deref (lookup s.chars pos) >>= λ ci.
        iter_next fuel s pos >>= λ p. rest p >>= λ r. ok (ci.chr ∷ r.0, pos ∷ r.1))

-- `Iterator it(content, Begin()); it.MoveNext(); while (!it.is_end()) { ... }`
unfoldable pub scan_text : ℕ → AnnotatedString → Outcome (Bytes × List Id64)
unfolding scan_from
scan_text fuel s = do
  start ← iterator fuel s begin_id
  first ← iter_next fuel s start
  scan_from fuel fuel s first
