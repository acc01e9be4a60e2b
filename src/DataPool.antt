-- ===== src/DataPool.antt =====
-- utils/dataPool.go: byte slices handed out by classes of size.
pub mod Classes
use goxdcr.Prelude.{
  ℕ, zero, suc, Option, none, some, List, [], ◌∷◌, ◌++◌, ltb, leb, ◌==◌, if◌then◌else◌, get_elem?,
  get_or, take, drop,
}
use goxdcr.SimpleUtils.Search.{search}

abbrev pub num_of_sizes : ℕ
num_of_sizes = 20

abbrev pub byte_slice_pool_classes : List ℕ
byte_slice_pool_classes =
    50 ∷ 100 ∷ 250 ∷ 500 ∷ 1024 ∷ 5120 ∷ 10240 ∷ 20480 ∷ 40960 ∷ 81920 ∷ 102400 ∷ 204800 ∷ 409600
    ∷ 819200 ∷ 1048576 ∷ 2097152 ∷ 4194304 ∷ 8388608 ∷ 10485760 ∷ 22020096 ∷ []

abbrev pub class : ℕ → ℕ
class i = get_or byte_slice_pool_classes i 0

pub record ByteSlice : Type 0 where
  pub len : ℕ
  pub cap : ℕ

-- What has been put into the pool of each class.
pub record DataPool : Type 0 where
  pub byte_slice_pools : ℕ → List ByteSlice

unfoldable pub new_data_pool : DataPool
new_data_pool = record { byte_slice_pools = λ i. [] }

unfoldable pub set_pool : ℕ → List ByteSlice → DataPool → DataPool
set_pool i slices p = record {
  byte_slice_pools = λ k. if k == i then slices else p.byte_slice_pools k;
}

-- `New` of a pool.
abbrev pub make_slice : ℕ → ByteSlice
make_slice i = record { len = class i; cap = class i }

-- `Get` of a sync.Pool: any one of the slices, which it takes out, or a new one.
unfoldable pub pool_get : Option ℕ → ℕ → DataPool → ByteSlice × DataPool
pool_get none i p = (make_slice i, p)
pool_get (some choice) i p = elim (get_elem? (p.byte_slice_pools i) choice) [
  | none ↦ (make_slice i, p)
  | some slice ↦ (
    slice,
    set_pool i (take choice (p.byte_slice_pools i) ++ drop (suc choice) (p.byte_slice_pools i)) p,
  )
]

-- The first class that is large enough.
unfoldable pub class_of : ℕ → ℕ
class_of size = search num_of_sizes (λ i. leb size (class i))

-- `none` stands for ErrorSizeExceeded.
unfoldable pub get_byte_slice : Option ℕ → ℕ → DataPool → Option (ByteSlice × DataPool)
get_byte_slice choice size_requested p =
    let i = class_of size_requested in
    if ltb i num_of_sizes then some (pool_get choice i p) else none

unfoldable pub put_byte_slice : ByteSlice → DataPool → DataPool
put_byte_slice done_slice p =
    let i = class_of done_slice.cap in
    if ltb i num_of_sizes then set_pool i (p.byte_slice_pools i ++ done_slice ∷ []) p else p
