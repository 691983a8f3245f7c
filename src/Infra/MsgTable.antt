-- ===== src/Infra/MsgTable.antt =====
-- infrastructure/include/msg_table.h: message tables and business groups. A table is the list of
-- its entries, a C string the list of its characters before the terminator, a null pointer `none`.
-- A handler is a function on the state `S` of its thread.
pub mod Routes
use dts_framework.Common.{
  ℕ, Bool, true, false, ◌&&◌, not, Option, none, some, List, [], ◌∷◌, ◌==◌, if◌then◌else◌,
}

pub record MsgHandler (S : Type 0) : Type 0 where
  pub msg_id : ℕ
  pub fn : Option (Option (List ℕ) → S → S)
  pub name : List ℕ

-- `MsgTable::Find`
unfoldable pub find_handler : {S : Type 0} → List (MsgHandler S) → ℕ → Option (MsgHandler S)
find_handler [] msg_id = none
find_handler (h ∷ hs) msg_id =
    let rest = find_handler hs msg_id in if h.msg_id == msg_id then some h else rest

abbrev run_fn : {S : Type 0} → Option (Option (List ℕ) → S → S) → Option (List ℕ) → S → Bool × S
run_fn none payload s = (false, s)
run_fn (some fn) payload s = (true, fn payload s)

-- `MsgTable::Dispatch`, from the entry that was found on.
unfoldable pub run_found : {S : Type 0} → Option (MsgHandler S) → Option (List ℕ) → S → Bool × S
run_found none payload s = (false, s)
run_found (some h) payload s = run_fn h.fn payload s

unfoldable pub dispatch : {S : Type 0} → List (MsgHandler S) → ℕ → Option (List ℕ) → S → Bool × S
unfolding run_found
dispatch hs msg_id payload s = run_found (find_handler hs msg_id) payload s

pub record SessionMsgTable (S : Type 0) : Type 0 where
  pub session_type : Option (List ℕ)
  pub session_inst : Option (List ℕ)
  pub entries : Option (List (MsgHandler S))

-- The loop of `CStrEq`.
unfoldable pub chars_eq : List ℕ → List ℕ → Bool
chars_eq [] [] = true
chars_eq [] (d ∷ ds) = false
chars_eq (c ∷ cs) [] = false
chars_eq (c ∷ cs) (d ∷ ds) = let rest = chars_eq cs ds in if c == d then rest else false

-- Equal pointers have equal characters, or are both null.
unfoldable pub c_str_eq : Option (List ℕ) → Option (List ℕ) → Bool
c_str_eq none none = true
c_str_eq none (some b) = false
c_str_eq (some a) none = false
c_str_eq (some a) (some b) = chars_eq a b

-- The inner loop of `MsgIdsUnique`.
unfoldable pub id_absent : {S : Type 0} → ℕ → List (MsgHandler S) → Bool
id_absent msg_id [] = true
id_absent msg_id (h ∷ hs) = not (msg_id == h.msg_id) && id_absent msg_id hs

unfoldable pub msg_ids_unique : {S : Type 0} → List (MsgHandler S) → Bool
msg_ids_unique [] = true
msg_ids_unique (h ∷ hs) = id_absent h.msg_id hs && msg_ids_unique hs

abbrev pub is_set {ℓ} : {A : Type ℓ} → Option A → Bool
is_set none = false
is_set (some a) = true

-- The inner loop of `SessionGroupsValid`.
unfoldable pub inst_absent : {S : Type 0} → Option (List ℕ) → List (SessionMsgTable S) → Bool
inst_absent inst [] = true
inst_absent inst (g ∷ gs) = not (c_str_eq inst g.session_inst) && inst_absent inst gs

-- Its outer loop, where `first` is the type of the first group.
unfoldable pub groups_valid_from : {S : Type 0} → Option (List ℕ) → List (SessionMsgTable S) → Bool
groups_valid_from first [] = true
groups_valid_from first (g ∷ gs) =
    (is_set g.session_type && (is_set g.session_inst && is_set g.entries))
    && (c_str_eq first g.session_type
        && (inst_absent g.session_inst gs && groups_valid_from first gs))

unfoldable pub session_groups_valid : {S : Type 0} → List (SessionMsgTable S) → Bool
session_groups_valid [] = false
session_groups_valid (g ∷ gs) = groups_valid_from g.session_type (g ∷ gs)

-- The loop of `FindSessionTable`, for an instance that is not null.
unfoldable pub find_session_loop :
    {S : Type 0} → List (SessionMsgTable S) → List ℕ → Option (SessionMsgTable S)
find_session_loop [] inst = none
find_session_loop (g ∷ gs) inst =
    let rest = find_session_loop gs inst in
    if is_set g.session_inst && c_str_eq g.session_inst (some inst) then some g else rest

unfoldable pub find_session_table :
    {S : Type 0} → List (SessionMsgTable S) → Option (List ℕ) → Option (SessionMsgTable S)
find_session_table gs none = none
find_session_table gs (some inst) = find_session_loop gs inst
