-- ===== src/Datatypes/DataType/Index.antt =====
-- core/src/datatypes.rs: the object-dictionary index of a data type identifies it.
use canopen_rs.Base.{ℕ, ◌≡◌, ◌↔◌, refl, sym, ap, ◌∙◌, true, some, arith, ==_iff}
use canopen_rs.Datatypes.DataType.{DataType, boolean, integer8, index, from_index, eq}

pub from_index-index : (t : DataType) → from_index (index t) ≡ some t
unfolding from_index index
from_index-index boolean = refl
from_index-index integer8 = refl
from_index-index _ = refl

pub index-from_index : (i : ℕ) (t : DataType) → from_index i ≡ some t → index t ≡ i
unfolding from_index index
index-from_index i t h = ground arith

-- `from_index` answers exactly the indices of the data types, each with its type.
pub from_index_iff : (i : ℕ) (t : DataType) → (from_index i ≡ some t) ↔ (index t ≡ i)
from_index_iff i t = (index-from_index i t, λ e. rw (← e) (from_index-index t))

pub index-injective : (s t : DataType) → index s ≡ index t → s ≡ t
index-injective s t e = cc (sym (from_index-index s) ∙ ap from_index e ∙ from_index-index t)

pub eq_iff : (s t : DataType) → (eq s t ≡ true) ↔ (s ≡ t)
unfolding index
eq_iff s t = (
  λ e. index-injective s t ((==_iff (index s) (index t)).0 e),
  λ e. rw e ((==_iff (index t) (index t)).1 refl),
)
