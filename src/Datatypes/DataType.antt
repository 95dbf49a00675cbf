-- ===== src/Datatypes/DataType.antt =====
-- core/src/datatypes.rs: the basic data types of CiA 301.
pub mod Index
use canopen_rs.Base.{ℕ, Bool, true, false, Option, none, some, ◌==◌, if◌then◌else◌}

pub data DataType : Type 0 where
  boolean integer8 integer16 integer32 unsigned8 unsigned16 unsigned32 : DataType
  real32 real64 integer64 unsigned64 visible_string octet_string domain : DataType

-- The discriminant, the object-dictionary index of the type.
unfoldable pub index : DataType → ℕ
index boolean = 0x01
index integer8 = 0x02
index integer16 = 0x03
index integer32 = 0x04
index unsigned8 = 0x05
index unsigned16 = 0x06
index unsigned32 = 0x07
index real32 = 0x08
index real64 = 0x11
index integer64 = 0x15
index unsigned64 = 0x1b
index visible_string = 0x09
index octet_string = 0x0a
index domain = 0x0f

unfoldable pub from_index : ℕ → Option DataType
from_index i =
    if i == 0x01
    then some boolean
    else if i == 0x02
    then some integer8
    else if i == 0x03
    then some integer16
    else if i == 0x04
    then some integer32
    else if i == 0x05
    then some unsigned8
    else if i == 0x06
    then some unsigned16
    else if i == 0x07
    then some unsigned32
    else if i == 0x08
    then some real32
    else if i == 0x09
    then some visible_string
    else if i == 0x0a
    then some octet_string
    else if i == 0x0f
    then some domain
    else if i == 0x11
    then some real64
    else if i == 0x15
    then some integer64
    else if i == 0x1b
    then some unsigned64
    else none

unfoldable pub fixed_size : DataType → Option ℕ
fixed_size boolean = some 1
fixed_size integer8 = some 1
fixed_size unsigned8 = some 1
fixed_size integer16 = some 2
fixed_size unsigned16 = some 2
fixed_size integer32 = some 4
fixed_size unsigned32 = some 4
fixed_size real32 = some 4
fixed_size integer64 = some 8
fixed_size unsigned64 = some 8
fixed_size real64 = some 8
fixed_size visible_string = none
fixed_size octet_string = none
fixed_size domain = none

unfoldable pub is_variable : DataType → Bool
unfolding fixed_size
is_variable t = elim (fixed_size t) [ none ↦ true | some _ ↦ false ]

unfoldable pub size : DataType → ℕ
unfolding fixed_size
size t = elim (fixed_size t) [ none ↦ 0 | some n ↦ n ]

-- The derived equality: the discriminants agree.
abbrev pub eq : DataType → DataType → Bool
unfolding index
eq s t = index s == index t
