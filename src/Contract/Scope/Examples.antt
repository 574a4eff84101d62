-- ===== src/Contract/Scope/Examples.antt =====
-- Tests of authorities.
use phenix_ai.Prelude.{◌≡◌, refl, true, ◌&&◌, [], ◌∷◌}
use phenix_ai.Prelude.Order.{Text, ascii, compare_text}
use phenix_ai.Contract.Failure.{ok}
use phenix_ai.Contract.Schema.{identifier}
use phenix_ai.Contract.Scope.{
  Authority, split_once, rsplit_once, parse_digits, parse_u32, decimal, operation_key, valid,
  member, intersect, to_value, from_value,
}
use phenix_ai.Contract.Scope.Attenuation.{IsOrdered, intersect-member}
use phenix_ai.Contract.Scope.Round.{from_value-to_value}

abbrev parent : Authority
parent = record {
  operations = ascii "a@1/r" ∷ ascii "b@12/r" ∷ [];
  resources = ascii "x" ∷ ascii "y" ∷ [];
}

abbrev child : Authority
child = record { operations = ascii "b@12/r" ∷ ascii "c@1/r" ∷ []; resources = ascii "x" ∷ [] }

parent_valid : valid parent ≡ true
unfolding valid operation_key split_once rsplit_once parse_u32 parse_digits decimal identifier
    compare_text
parent_valid = refl

parent-IsOrdered : IsOrdered parent.operations × IsOrdered parent.resources
unfolding compare_text
parent-IsOrdered = (((refl, tt), (tt, tt)), ((refl, tt), (tt, tt)))

intersect-member_example :
    (valid (intersect parent child) ≡ true)
    × IsOrdered (intersect parent child).operations
    × IsOrdered (intersect parent child).resources
    × ((x : Text)
        → member x (intersect parent child).operations
          ≡ (member x parent.operations && member x child.operations))
    × ((x : Text)
        → member x (intersect parent child).resources
          ≡ (member x parent.resources && member x child.resources))
intersect-member_example = intersect-member parent child parent_valid parent-IsOrdered

from_value-to_value_example : from_value (to_value parent) ≡ ok parent
from_value-to_value_example = from_value-to_value parent parent_valid parent-IsOrdered
