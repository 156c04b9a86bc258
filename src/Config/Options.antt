-- ===== src/Config/Options.antt =====
-- Which HDFS options have precedence (Config::load of src/config/mod.rs).
use hdfs_s3_gateway.Prelude.{
  ◌≡◌, refl, Bytes, ◌=?◌, =?_iff, Option, none, some, List, [], ◌∷◌, if◌then◌else◌, arith,
}
use hdfs_s3_gateway.Config.Load.{insert_option, extend_options, unwrap_or}

-- The value of a key, of the last pair that has it.
abbrev pub last_value : Bytes → List (Bytes × Bytes) → Option Bytes
last_value k [] = none
last_value k ((j, v) ∷ pairs) = elim (last_value k pairs) [
  | some w ↦ some w
  | none ↦ if k =? j then some v else none
]

-- The value of a key, of the first pair that has it.
abbrev pub first_value : Bytes → List (Bytes × Bytes) → Option Bytes
first_value k [] = none
first_value k ((j, v) ∷ pairs) = if k =? j then some v else first_value k pairs

first_value-insert_option :
    (k j v : Bytes) (m : List (Bytes × Bytes))
    → first_value k (insert_option (j, v) m) ≡ (if k =? j then some v else first_value k m)
unfolding insert_option
first_value-insert_option k j v [] = refl
first_value-insert_option k j v ((i, w) ∷ m) =
    ground (arith, first_value-insert_option k j v m, =?_iff j i, =?_iff k j, =?_iff k i)

first_value-extend_options :
    (k : Bytes) (pairs m : List (Bytes × Bytes))
    → first_value k (extend_options m pairs)
      ≡ elim (last_value k pairs) [ some v ↦ some v | none ↦ first_value k m ]
unfolding extend_options
first_value-extend_options k [] m = refl
first_value-extend_options k ((j, v) ∷ pairs) m = ground (
  arith,
  first_value-extend_options k pairs (insert_option (j, v) m),
  first_value-insert_option k j v m,
)

pub options_elim :
    (k : Bytes) (o : Option (List (Bytes × Bytes))) (m : List (Bytes × Bytes))
    → first_value k (extend_options m (unwrap_or o []))
      ≡ elim (last_value k (elim o [ some pairs ↦ pairs | none ↦ [] ])) [
        | some v ↦ some v
        | none ↦ first_value k m
      ]
options_elim k none m = first_value-extend_options k [] m
options_elim k (some pairs) m = first_value-extend_options k pairs m
