-- ===== src/Lists/Examples.antt =====
-- The theorems on the list at concrete items.
use nyaux_kc.Base.{
  ℕ, ◌≡◌, refl, some, List, [], ◌∷◌, arith, Returns, true, ◌==◌, if◌then◌else◌, ◌+◌,
}
use nyaux_kc.Lists.{ok, err, contains, clear}
use nyaux_kc.Lists.Nodes.{Ptr, InvasiveList, Memory, list, new_list, new_node, node}
use nyaux_kc.Lists.Shape.{IsList}
use nyaux_kc.Lists.Refinement.{
  Op, push_first, push_last, pop_last, drop_item, pushed, popped, dropped, perform_all,
  abstract_all, Represents, Agrees, perform_all-abstract_all,
}
use nyaux_kc.Lists.Walk.{Cleared, contains-has, clear-not-IsList}
use nyaux_kc.Lists.Arcs.{ArcInvasiveList}
use nyaux_kc.Lists.Arcs
use nyaux_kc.Lists.Arcs.Accounts.{Accounts, with_one, remove-leaks}

abbrev blank : Memory
blank a = new_node

abbrev script : List Op
script = push_first 16 ∷ push_last 32 ∷ push_first 16 ∷ push_last 48 ∷ drop_item 32 ∷ pop_last ∷ []

script-answers :
    abstract_all script []
    ≡ (pushed ok ∷ pushed ok ∷ pushed err ∷ pushed ok ∷ dropped ∷ popped (some 48) ∷ [], 16 ∷ [])
unfolding abstract_all
script-answers = refl

blank-Represents : Represents (new_list blank) []
blank-Represents = record {
  items = record { chain = tt; first = refl; last = refl; count = refl };
  others = λ a o. (refl, refl);
}

perform_all-abstract_all_example :
    Returns (Agrees (abstract_all script [])) (perform_all script (new_list blank))
perform_all-abstract_all_example = perform_all-abstract_all script [] blank-Represents (omega arith)

-- Two linked items, 16 and 32, and one reference to 16 held elsewhere.
abbrev pair : Memory
pair a = if a == 16 then node 1 32 else if a == 32 then node 16 1 else new_node

abbrev pair_list : InvasiveList
pair_list = list pair 16 32 2

pair-IsList : IsList pair_list (16 ∷ 32 ∷ [])
pair-IsList = record {
  chain = (omega arith, (refl, refl, refl), (omega arith, (refl, refl, refl), tt));
  first = refl;
  last = refl;
  count = refl;
}

abbrev pair_arcs : ArcInvasiveList
pair_arcs = record {
  inner = pair_list;
  strong = λ a. if a == 16 then 2 else if a == 32 then 1 else 0;
}

abbrev elsewhere : Ptr → ℕ
elsewhere a = if a == 16 then 1 else 0

pair-Accounts : Accounts elsewhere (16 ∷ 32 ∷ []) pair_arcs
pair-Accounts = record {
  shape = record { items = pair-IsList; others = λ a o. ground arith };
  counts = λ a. ground arith;
}

-- The same, seen as the caller's one reference to 16 beside the list's.
pair-Accounts_caller : Accounts (with_one (λ a. 0) 16) (16 ∷ 32 ∷ []) pair_arcs
pair-Accounts_caller = record { shape = pair-Accounts.shape; counts = λ a. ground arith }

contains-has_example : contains 3 32 pair_list ≡ some (true, pair_list)
contains-has_example = contains-has pair-IsList 3 (omega arith) 32 (omega arith)

clear-not-IsList_example :
    Returns (λ _ t. Cleared pair_list (16 ∷ 32 ∷ []) t × (¬ IsList t [])) (clear 3 pair_list)
clear-not-IsList_example =
    clear-not-IsList pair_list 16 (32 ∷ []) 3 pair-IsList (omega arith) (omega arith)

remove-leaks_example :
    Returns
      (λ _ t. Represents t.inner (16 ∷ []) × (t.strong 32 ≡ 0 + 1))
      (Arcs.remove 3 32 pair_arcs)
remove-leaks_example =
    remove-leaks elsewhere pair_arcs 3 (16 ∷ []) 32 [] pair-Accounts (omega arith)
