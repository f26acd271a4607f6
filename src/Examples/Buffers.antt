-- ===== src/Examples/Buffers.antt =====
-- Buffers, at concrete data.
use collision_avoidance.Base.{◌≡◌, refl, ◌/◌, ◌==◌, true, none, some, [], ◌∷◌, arith}
use collision_avoidance.Base.Int.{pos}
use collision_avoidance.Types.{UbxType, UbxData, ok}
use collision_avoidance.Data.{null, dangling, data_alloc, raw_alloc, data_assign, data_copy}
use collision_avoidance.Data.Laws.{
  IsSized, CanAssign, data_assign_lem, data_assign_overread, data_copy_lem,
}
use collision_avoidance.Hash.{assoc}
use collision_avoidance.Registry.{TypeRef}

abbrev short : UbxType
short = record { addr = 9; name = "int16"; type_class = 1; size = 2 }

abbrev target : UbxData
target = record { type = some short; len = 2; buffer = some (0 ∷ 0 ∷ 0 ∷ 0 ∷ []) }

abbrev source : UbxData
source = record { type = some short; len = 2; buffer = some (1 ∷ 2 ∷ 3 ∷ 4 ∷ []) }

abbrev brief : UbxData
brief = record { type = some short; len = 1; buffer = some (1 ∷ 2 ∷ []) }

IsSized-target : IsSized target short
IsSized-target = record { at_type = refl; content = _; at_buffer = refl; full = refl }

IsSized-source : IsSized source short
IsSized-source = record { at_type = refl; content = _; at_buffer = refl; full = refl }

IsSized-brief : IsSized brief short
IsSized-brief = record { at_type = refl; content = _; at_buffer = refl; full = refl }

CanAssign-source : CanAssign target source short
CanAssign-source = record {
  target = IsSized-target;
  source = IsSized-source;
  plain = refl;
  small = omega arith;
}

CanAssign-brief : CanAssign target brief short
CanAssign-brief = record {
  target = IsSized-target;
  source = IsSized-brief;
  plain = refl;
  small = omega arith;
}

data_assign_lem_example :
    (d' : UbxData) × (data_assign target source ≡ some (ok, d'))
    × (d'.buffer ≡ source.buffer)
    × (d'.len ≡ target.len)
data_assign_lem_example = data_assign_lem target source short CanAssign-source refl

data_assign_overread_example : data_assign target brief ≡ none
data_assign_overread_example = data_assign_overread target brief short CanAssign-brief (omega arith)

data_copy_lem_example :
    data_copy target (some (5 ∷ 6 ∷ [])) 2
    ≡ some (pos (2 / 2), record target { buffer = some (5 ∷ 6 ∷ 0 ∷ 0 ∷ []) })
unfolding IsSized-target
data_copy_lem_example =
    data_copy_lem target short (5 ∷ 6 ∷ []) 2 IsSized-target (omega arith) (omega arith) refl

-- One byte is no number of elements of two.
odd_copy : data_copy target (some (5 ∷ 6 ∷ [])) 1 ≡ some (pos 0, target)
unfolding data_copy
odd_copy = refl

-- No node, and a second allocation that fails.
alloc_fails :
    (data_alloc (assoc TypeRef) none "int16" 1 (λ k. true) ≡ null)
    × (raw_alloc (some short) 1 (λ k. k == 0) ≡ dangling)
unfolding data_alloc raw_alloc
alloc_fails = (refl, refl)
