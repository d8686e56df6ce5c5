-- ===== src/LineEditor/Cursor.antt =====
-- Where the cursor of a line editor can be, and which keys fail there.
use ced.Base.{
  ℕ, zero, suc, ◌≤◌, ◌≡◌, ap, refl, leb, Bool, true, false, List, [], ◌∷◌, ◌++◌, ◌⊎◌, inl, inr,
  length, All, arith, subst,
}
use ced.Proto.{Bytes}
use ced.Outcome.{Outcome, ok}
use ced.LineEditor.{
  Index, position, minus_one, LineEditor, select_mode, index_left, index_right, cursor_left,
  cursor_right, select_left, move_left, select_right, move_right, move_start_of_line,
  move_end_of_line, last_index, idle, erase_at, insert_at, backspace_at, ins_char_at, Key,
  key_select_left, key_left, key_select_right, key_right, key_home, key_end, key_idle,
  key_backspace, key_char, press, press_all,
}

-- The cursor is a position of the text or the one behind its last.
abbrev pub Within : ℕ → Index → Type 0
Within len minus_one = ⊥
Within len (position n) = n ≤ len

length-insert_at : (n c : ℕ) (cs : Bytes) → length (insert_at n c cs) ≡ suc (length cs)
unfolding insert_at
length-insert_at zero c cs = refl
length-insert_at (suc n) c [] = refl
length-insert_at (suc n) c (d ∷ ds) = ap suc (length-insert_at n c ds)

length-erase_at : (n : ℕ) (cs : Bytes) → length cs ≤ suc (length (erase_at n cs))
unfolding erase_at
length-erase_at n [] = ground arith
length-erase_at zero (c ∷ cs) = ground arith
length-erase_at (suc n) (c ∷ cs) = omega (arith, length-erase_at n cs)

Within-left : (len : ℕ) (i : Index) → Within len i → Within len (index_left i)
unfolding index_left
Within-left len minus_one w = elim w [ ]
Within-left len (position zero) w = w
Within-left len (position (suc n)) w = omega arith

Within-right : (len : ℕ) (i : Index) → Within len i → Within len (index_right len i)
unfolding index_right
Within-right len minus_one w = elim w [ ]
Within-right len (position n) w = ground arith

-- The keys that keep the cursor on the line: all but End.
unfoldable pub stays : Key → Bool
stays key_end = false
stays key_select_left = true
stays key_left = true
stays key_select_right = true
stays key_right = true
stays key_home = true
stays key_idle = true
stays key_backspace = true
stays (key_char _) = true

abbrev pub IsSound : LineEditor → Type 0
IsSound e = Within (length e.text) e.cursor

abbrev pub Answers : Outcome LineEditor → Type 0
Answers r = (e : LineEditor) × (r ≡ ok e) × IsSound e

backspace-Answers :
    (e : LineEditor) (i : Index)
    → Within (length e.text) i
    → i ≡ e.cursor
    → Answers (backspace_at e i)
unfolding backspace_at
backspace-Answers e minus_one w q = elim w [ ]
backspace-Answers e (position zero) w q = (e, refl, subst (Within (length e.text)) q w)
backspace-Answers e (position (suc n)) w q = (
  record e { text = erase_at (suc n) e.text; cursor = position n },
  ground arith,
  omega (arith, length-erase_at (suc n) e.text),
)

ins_char-Answers :
    (e : LineEditor) (c : ℕ) (i : Index) → Within (length e.text) i → Answers (ins_char_at e c i)
unfolding ins_char_at
ins_char-Answers e c minus_one w = elim w [ ]
ins_char-Answers e c (position n) w = (
  record e { text = insert_at n c e.text; cursor = position (suc n) },
  ground arith,
  omega (arith, length-insert_at n c e.text),
)

press-Answers : (e : LineEditor) (k : Key) → stays k ≡ true → IsSound e → Answers (press e k)
unfolding press stays cursor_left cursor_right select_mode select_left move_left select_right
    move_right move_start_of_line idle
press-Answers e key_select_left h w = (_, refl, Within-left (length e.text) e.cursor w)
press-Answers e key_left h w = (_, refl, Within-left (length e.text) e.cursor w)
press-Answers e key_select_right h w = (_, refl, Within-right (length e.text) e.cursor w)
press-Answers e key_right h w = (_, refl, Within-right (length e.text) e.cursor w)
press-Answers e key_home h w = (_, refl, omega arith)
press-Answers e key_end h w = ground arith
press-Answers e key_idle h w = (_, refl, w)
press-Answers e key_backspace h w = backspace-Answers e e.cursor w refl
press-Answers e (key_char c) h w = ins_char-Answers e c e.cursor w

-- From a cursor on the line, any sequence of keys without End is answered without an exception, and
-- leaves the cursor on the line.
pub press_all-Answers :
    (ks : List Key) (e : LineEditor)
    → All (λ k. stays k ≡ true) ks
    → IsSound e
    → Answers (press_all e ks)
unfolding press_all
press_all-Answers [] e h w = (e, refl, w)
press_all-Answers (k ∷ ks) e h w =
    let (e', step, w') = press-Answers e k h.0 w in
    let (e'', run, w'') = press_all-Answers ks e' h.1 w' in (e'', rw step run, w'')

erase-insert :
    (n c : ℕ) (cs : Bytes)
    → n ≤ length cs
    → erase_at (suc n) (insert_at n c cs) ≡ insert_at n c (erase_at n cs)
unfolding erase_at insert_at
erase-insert zero c [] h = refl
erase-insert zero c (d ∷ ds) h = refl
erase-insert (suc n) c [] h = ground arith
erase-insert (suc n) c (d ∷ ds) h = ap (◌∷◌ d) (erase-insert n c ds (omega arith))

-- A character and then Backspace, at a position of the line: the character stays, the one that was
-- behind the cursor is gone if there was one, and the cursor is back.
pub ins_char-backspace :
    (n c : ℕ) (e : LineEditor)
    → n ≤ length e.text
    → e.cursor ≡ position n
    → press_all e (key_char c ∷ key_backspace ∷ [])
      ≡ ok (record e { text = insert_at n c (erase_at n e.text); cursor = position n })
unfolding press_all press backspace_at ins_char_at
ins_char-backspace n c e h at_n =
    let fits : leb n (length e.text) ≡ true = ground arith in
    let fits' : leb (suc n) (length (insert_at n c e.text)) ≡ true =
      ground (arith, length-insert_at n c e.text) in
    rw at_n (rw fits (rw fits' (rw (erase-insert n c e.text h))))

end_key :
    (e : LineEditor) (t : Bytes)
    → e.text ≡ t
    → ((key_end ≡ key_end) × (e.text ≡ [])) ⊎ Answers (press e key_end)
unfolding press move_end_of_line last_index
end_key e [] q = inl (refl, q)
end_key e (c ∷ cs) q = inr (_, refl, rw q (omega arith))

press-step :
    (e : LineEditor) (k : Key) → IsSound e → ((k ≡ key_end) × (e.text ≡ [])) ⊎ Answers (press e k)
unfolding stays
press-step e key_end w = end_key e e.text refl
press-step e key_select_left w = inr (press-Answers e key_select_left refl w)
press-step e key_left w = inr (press-Answers e key_left refl w)
press-step e key_select_right w = inr (press-Answers e key_select_right refl w)
press-step e key_right w = inr (press-Answers e key_right refl w)
press-step e key_home w = inr (press-Answers e key_home refl w)
press-step e key_idle w = inr (press-Answers e key_idle refl w)
press-step e key_backspace w = inr (press-Answers e key_backspace refl w)
press-step e (key_char c) w = inr (press-Answers e (key_char c) refl w)

-- Among the keys is an End that is pressed when the ones before it have made the line empty.
pub record EndsEmpty (e : LineEditor) (ks : List Key) : Type 0 where
  pub before : List Key
  pub behind : List Key
  pub there : LineEditor
  pub pressed : ks ≡ before ++ key_end ∷ behind
  pub reached : press_all e before ≡ ok there
  pub bare : there.text ≡ []

-- From a cursor on the line, whatever keys are pressed: they are answered without an exception and
-- leave the cursor on the line, or End is pressed among them on a line that is empty by then.
pub press_all_lem :
    (ks : List Key) (e : LineEditor) → IsSound e → Answers (press_all e ks) ⊎ EndsEmpty e ks
unfolding press_all
press_all_lem [] e w = inl (e, refl, w)
press_all_lem (k ∷ ks) e w = elim (press-step e k w) [
  | inl (last, none_left) ↦ inr (record {
    before = [];
    behind = ks;
    there = e;
    pressed = ap (λ x. x ∷ ks) last;
    reached = refl;
    bare = none_left;
  })
  | inr (e', step, w') ↦ elim (press_all_lem ks e' w') [
    | inl (e'', run, w'') ↦ inl (e'', rw step run, w'')
    | inr x ↦ inr (record {
      before = k ∷ x.before;
      behind = x.behind;
      there = x.there;
      pressed = ap (◌∷◌ k) x.pressed;
      reached = rw step x.reached;
      bare = x.bare;
    })
  ]
]
