-- ===== src/KvStore/Key.antt =====
-- include/data/kvstore.h, the specialisation of `deserialize` for a key.
use cs4500project.Prelude.{
  Bool-cases, List, arith, assertion_failed, fault, if◌then◌else◌, inl, inr, length, ltb, ltb→lt,
  lt→ltb, true, undefined, ℕ, ◌%◌, ◌+◌, ◌-◌, ◌<◌, ◌≡◌, ◌≤◌,
}
use cs4500project.KvStore.{deserialize_key, node_size}
use cs4500project.Serializable.{size_max}

-- Reading a key from fewer than 2 ^ 64 bytes never succeeds: with eight bytes or more left the
-- assertion fails, and with fewer the copy of the node reads behind the bytes.
pub deserialize_key_fails :
    (bytes : List ℕ) (pos : ℕ)
    → pos ≤ length bytes
    → length bytes < size_max
    → deserialize_key bytes pos
      ≡ fault (if ltb (length bytes - pos) 8 then undefined else assertion_failed)
unfolding deserialize_key
deserialize_key_fails bytes pos h l =
    let rest = length bytes - pos in
    let wrapped : (length bytes + size_max - pos) % size_max ≡ rest = omega arith in
    elim (Bool-cases (ltb rest 8)) [
      | inl e ↦
          let short : ltb (length bytes) (pos + node_size) ≡ true =
            lt→ltb (length bytes) (pos + node_size) (let q = ltb→lt rest 8 e in omega arith) in
          rw (wrapped, e, short)
      | inr e ↦ rw (wrapped, e)
    ]
