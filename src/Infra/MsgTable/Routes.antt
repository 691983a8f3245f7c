-- ===== src/Infra/MsgTable/Routes.antt =====
-- What the compile-time checks of infrastructure/include/msg_table.h promise to the dispatch.
use dts_framework.Common.{
  ℕ, ◌≡◌, refl, Bool, true, false, ◌&&◌, not, Option, none, some, List, [], ◌∷◌, ◌++◌, ◌==◌,
  ==_refl, subst, &&-true, not-true, Option-cases, inl, inr, sym,
}
use dts_framework.Infra.MsgTable.{
  is_set, MsgHandler, find_handler, id_absent, msg_ids_unique, SessionMsgTable, chars_eq, c_str_eq,
  inst_absent, groups_valid_from, session_groups_valid, find_session_loop, find_session_table,
}

absent-there :
    {S : Type 0} (id : ℕ) (pre post : List (MsgHandler S)) (h : MsgHandler S)
    → id_absent id (pre ++ h ∷ post) ≡ true
    → (id == h.msg_id) ≡ false
unfolding id_absent
absent-there id [] post h e = not-true _ (&&-true (not (id == h.msg_id)) (id_absent id post) e).0
absent-there id (p ∷ pre) post h e =
    absent-there id pre post h (&&-true (not (id == p.msg_id)) (id_absent id (pre ++ h ∷ post)) e).1

-- Where `MsgIdsUnique` holds of a table, no entry is shadowed: `Find` returns each entry for its
-- id.
pub find_handler_unique :
    {S : Type 0} (pre post : List (MsgHandler S)) (h : MsgHandler S)
    → msg_ids_unique (pre ++ h ∷ post) ≡ true
    → find_handler (pre ++ h ∷ post) h.msg_id ≡ some h
unfolding msg_ids_unique find_handler
find_handler_unique [] post h e = rw (==_refl h.msg_id)
find_handler_unique (p ∷ pre) post h e =
    let (first, rest) =
      &&-true (id_absent p.msg_id (pre ++ h ∷ post)) (msg_ids_unique (pre ++ h ∷ post)) e in
    rw (absent-there p.msg_id pre post h first) (find_handler_unique pre post h rest)

chars_eq_refl : (cs : List ℕ) → chars_eq cs cs ≡ true
unfolding chars_eq
chars_eq_refl [] = refl
chars_eq_refl (c ∷ cs) = rw (==_refl c) (chars_eq_refl cs)

inst_absent-there :
    {S : Type 0} (inst : Option (List ℕ)) (pre post : List (SessionMsgTable S))
    (g : SessionMsgTable S)
    → inst_absent inst (pre ++ g ∷ post) ≡ true
    → c_str_eq inst g.session_inst ≡ false
unfolding inst_absent
inst_absent-there inst [] post g e =
    not-true _ (&&-true (not (c_str_eq inst g.session_inst)) (inst_absent inst post) e).0
inst_absent-there inst (p ∷ pre) post g e =
    inst_absent-there inst pre post g
      (&&-true (not (c_str_eq inst p.session_inst)) (inst_absent inst (pre ++ g ∷ post)) e).1

&&-false : (a b : Bool) → b ≡ false → (a && b) ≡ false
&&-false true b e = e
&&-false false b e = refl

-- The group under its own instance, and no other before it.
group_loop :
    {S : Type 0} (first : Option (List ℕ)) (pre post : List (SessionMsgTable S))
    (g : SessionMsgTable S) (inst : List ℕ)
    → groups_valid_from first (pre ++ g ∷ post) ≡ true
    → g.session_inst ≡ some inst
    → find_session_loop (pre ++ g ∷ post) inst ≡ some g
unfolding groups_valid_from find_session_loop c_str_eq
group_loop first [] post g inst v e = rw (e, chars_eq_refl inst)
group_loop first (p ∷ pre) post g inst v e =
    let rest : Bool = groups_valid_from first (pre ++ g ∷ post) in
    let apart : Bool = inst_absent p.session_inst (pre ++ g ∷ post) in
    let whole : Bool = is_set p.session_type && (is_set p.session_inst && is_set p.entries) in
    let of_type : Bool = c_str_eq first p.session_type in
    let (_, w) = &&-true whole (of_type && (apart && rest)) v in
    let (_, x) = &&-true of_type (apart && rest) w in
    let (alone, others) = &&-true apart rest x in
    let differ : c_str_eq p.session_inst (some inst) ≡ false =
      subst (λ o. c_str_eq p.session_inst o ≡ false) e
        (inst_absent-there p.session_inst pre post g alone) in
    let skip : (is_set p.session_inst && c_str_eq p.session_inst (some inst)) ≡ false =
      &&-false _ _ differ in
    rw skip (group_loop first pre post g inst others e)

-- A valid group array has an instance in each group.
group_inst :
    {S : Type 0} (first : Option (List ℕ)) (pre post : List (SessionMsgTable S))
    (g : SessionMsgTable S)
    → groups_valid_from first (pre ++ g ∷ post) ≡ true
    → is_set g.session_inst ≡ true
unfolding groups_valid_from
group_inst first [] post g v =
    let inst : Bool = is_set g.session_inst in
    let whole : Bool = is_set g.session_type && (inst && is_set g.entries) in
    let others : Bool =
      c_str_eq first g.session_type
      && (inst_absent g.session_inst post && groups_valid_from first post) in
    let (w, _) = &&-true whole others v in
    let (_, x) = &&-true (is_set g.session_type) (inst && is_set g.entries) w in
    (&&-true inst (is_set g.entries) x).0
group_inst first (p ∷ pre) post g v =
    let rest : Bool = groups_valid_from first (pre ++ g ∷ post) in
    let apart : Bool = inst_absent p.session_inst (pre ++ g ∷ post) in
    let whole : Bool = is_set p.session_type && (is_set p.session_inst && is_set p.entries) in
    let of_type : Bool = c_str_eq first p.session_type in
    let (_, w) = &&-true whole (of_type && (apart && rest)) v in
    let (_, x) = &&-true of_type (apart && rest) w in
    group_inst first pre post g (&&-true apart rest x).1

valid_first :
    {S : Type 0} (gs : List (SessionMsgTable S))
    → session_groups_valid gs ≡ true
    → (first : Option (List ℕ)) × (groups_valid_from first gs ≡ true)
unfolding session_groups_valid
valid_first [] v = absurd (cc)
valid_first (g ∷ gs) v = (g.session_type, v)

-- Where `SessionGroupsValid` holds of an array of groups, `FindSessionTable` returns each group for
-- its instance.
pub find_session_table-valid :
    {S : Type 0} (pre post : List (SessionMsgTable S)) (g : SessionMsgTable S)
    → session_groups_valid (pre ++ g ∷ post) ≡ true
    → find_session_table (pre ++ g ∷ post) g.session_inst ≡ some g
unfolding find_session_table
find_session_table-valid pre post g v =
    let (first, w) = valid_first (pre ++ g ∷ post) v in
    elim (Option-cases g.session_inst) [
      | inl e ↦
          let bad : is_set {A = List ℕ} none ≡ true =
            subst (λ o. is_set o ≡ true) e (group_inst first pre post g w) in
          absurd (cc)
      | inr (inst, e) ↦
          subst (λ o. find_session_table (pre ++ g ∷ post) o ≡ some g) (sym e)
            (group_loop first pre post g inst w e)
    ]
