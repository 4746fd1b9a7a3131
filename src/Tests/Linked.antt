-- ===== src/Tests/Linked.antt =====
-- The theorems on libraries/Core/include/core/ds/LinkedList.h at a list of three nodes.
use cro_cos.Base.{◌≡◌, none, some, ◌==◌, if◌then◌else◌, [], ◌∷◌, refl, arith}
use cro_cos.Core.LinkedList.{IntrusiveLinkedList, push_back, remove}
use cro_cos.Core.LinkedList.Shape.{Represents}
use cro_cos.Core.LinkedList.Link.{push_back-Represents}
use cro_cos.Core.LinkedList.Unlink.{remove-Represents}

-- The nodes 3, 5 and 7.
abbrev three_nodes : IntrusiveLinkedList
three_nodes = record {
  head_node = some 3;
  tail_node = some 7;
  previous_at = λ i. if i == 7 then some 5 else if i == 5 then some 3 else none;
  next_at = λ i. if i == 3 then some 5 else if i == 5 then some 7 else none;
}

three_nodes-Represents : Represents three_nodes (3 ∷ 5 ∷ 7 ∷ [])
three_nodes-Represents = record {
  at_head = refl;
  at_tail = refl;
  nexts = (refl, (refl, (refl, tt)));
  previouses = (refl, (refl, (refl, tt)));
  distinct = (
    ((λ e. absurd (omega arith)), ((λ e. absurd (omega arith)), tt)),
    (((λ e. absurd (omega arith)), tt), (tt, tt)),
  );
}

remove-Represents_example : Represents (remove 5 three_nodes) (3 ∷ 7 ∷ [])
remove-Represents_example = remove-Represents three_nodes 5 (3 ∷ []) (7 ∷ []) three_nodes-Represents

push_back-Represents_example :
    (l' : IntrusiveLinkedList) × (push_back 9 three_nodes ≡ some l')
    × Represents l' (3 ∷ 5 ∷ 7 ∷ 9 ∷ [])
push_back-Represents_example =
    push_back-Represents three_nodes 9 (3 ∷ 5 ∷ 7 ∷ []) three_nodes-Represents (
      (λ e. absurd (omega arith)),
      ((λ e. absurd (omega arith)), ((λ e. absurd (omega arith)), tt)),
    )
