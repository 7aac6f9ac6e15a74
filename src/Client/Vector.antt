-- ===== src/Client/Vector.antt =====
-- `std::vector<uint8_t>`, as far as the clients use it.
use platform_external_nos_ho.Base.{
  ℕ, ◌-◌, ◌≤◌, List, ◌++◌, length, take, replicate, leb, if◌then◌else◌,
}

-- The elements, and how many there is room for.
pub record Vector : Type 0 where
  pub bytes : List ℕ
  pub capacity : ℕ

-- `resize`: new elements are 0. Where the vector has to grow, the allocator gives what is asked for.
unfoldable pub resize : Vector → ℕ → Vector
resize v n = record {
  bytes = take n v.bytes ++ replicate (n - length v.bytes) 0;
  capacity = if leb n v.capacity then v.capacity else n;
}

-- The elements fit the room.
abbrev pub IsVector : Vector → Type 0
IsVector v = length v.bytes ≤ v.capacity
