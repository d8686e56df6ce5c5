-- ===== src/Text/Commands.antt =====
-- annotated_string.h and annotated_string.cc, the functions that make commands: Make..., Insert and
-- the class AnnotationEditor. A command set only grows at its end, so a function that adds to one
-- returns what it adds, in order, with what else it changes or returns.
use ced.Base.{ℕ, zero, suc, ◌==◌, ◌||◌, if◌then◌else◌, List, [], ◌∷◌, ◌++◌, length}
use ced.Ids.{Id64, Site, generate_id, generate_id_block, created_id}
use ced.Proto.{Attribute, Annotation, Bytes, Command, CommandSet, Body}
use ced.Proto.Body.{insert, delete, decl, del_decl, mark, del_mark}
use ced.Outcome.{Outcome, ok, fault, out_of_fuel, ◌>>=◌, deref}
use ced.Avl.Map.{Avl, lookup, to_list}
use ced.Text.{AnnotatedString}
use ced.Text.Integrate.{integrate_all}
use ced.Text.Iterate.{all_next}

abbrev pub command : Id64 → Body → Command
command i b = record { id = i; body = b }

-- GenerateIDBlock asserts that the length is above 0.
unfoldable pub make_raw_insert : Site → Bytes → Id64 → Id64 → Outcome (CommandSet × Id64 × Site)
make_raw_insert site [] after before = fault
make_raw_insert site (c ∷ cs) after before =
    let (first, last, site') = generate_id_block site (length (c ∷ cs)) in
    ok (
      command first (insert (record { after = after; before = before; characters = c ∷ cs })) ∷ [],
      last,
      site',
    )

unfoldable pub make_insert :
    AnnotatedString → Site → Bytes → Id64 → Outcome (CommandSet × Id64 × Site)
unfolding make_raw_insert
make_insert s site cs after =
    deref (lookup s.chars after) >>= λ ci. make_raw_insert site cs after ci.next

-- Insert(commands, site, chars, after): the commands it makes are integrated at once.
unfoldable pub insert_text :
    ℕ → AnnotatedString → Site → Bytes → Id64 → Outcome (CommandSet × Id64 × Site × AnnotatedString)
unfolding make_insert
insert_text fuel s site cs after =
    make_insert s site cs after >>= λ r. integrate_all fuel s r.0 >>= λ t. ok (r.0, r.1, r.2, t)

abbrev pub make_delete : Id64 → Command
make_delete i = command i delete

-- MakeDelete(commands, beg, end).
unfoldable pub make_delete_range : ℕ → AnnotatedString → Id64 → Id64 → Outcome CommandSet
make_delete_range zero s pos end = out_of_fuel
make_delete_range (suc fuel) s pos end =
    let rest = λ (p : Id64). make_delete_range fuel s p end in
    if pos == end
    then ok []
    else (all_next s pos >>= λ p. rest p >>= λ cmds. ok (make_delete pos ∷ cmds))

abbrev pub make_del_mark : Id64 → Command
make_del_mark i = command i del_mark

abbrev pub make_del_decl : Id64 → Command
make_del_decl i = command i del_decl

unfoldable pub make_decl : Site → Attribute → Command × Id64 × Site
make_decl site attr = let (i, site') = generate_id site in (command i (decl attr), i, site')

unfoldable pub make_mark : Site → Annotation → Command × Id64 × Site
make_mark site ann = let (i, site') = generate_id site in (command i (mark ann), i, site')

-- MakeDeleteAttributesBySite: the inner loop, the loop over the types, and the loop over
-- `attributes_`.
unfoldable pub del_marks_by_site : Site → List (Id64 × Annotation) → CommandSet
del_marks_by_site site [] = []
del_marks_by_site site ((i, an) ∷ rest) =
    let cmds = del_marks_by_site site rest in
    if created_id site i || created_id site an.attribute then make_del_mark i ∷ cmds else cmds

unfoldable pub del_marks_by_type : Site → List (ℕ × Avl Annotation) → CommandSet
del_marks_by_type site [] = []
del_marks_by_type site ((_, by_type) ∷ rest) =
    del_marks_by_site site (to_list by_type) ++ del_marks_by_type site rest

unfoldable pub del_decls_by_site : Site → List (Id64 × ℕ) → CommandSet
del_decls_by_site site [] = []
del_decls_by_site site ((i, _) ∷ rest) =
    let cmds = del_decls_by_site site rest in
    if created_id site i then make_del_decl i ∷ cmds else cmds

unfoldable pub make_delete_attributes_by_site : AnnotatedString → Site → CommandSet
unfolding del_marks_by_type del_decls_by_site
make_delete_attributes_by_site s site =
    del_marks_by_type site (to_list s.annotations_by_type)
    ++ del_decls_by_site site (to_list s.attributes)
