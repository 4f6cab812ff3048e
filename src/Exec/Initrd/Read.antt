-- ===== src/Exec/Initrd/Read.antt =====
-- __ram_read: the bounds of a read.
use wyrm_os.Base.{
  ℕ, ◌+◌, ◌-◌, ◌^◌, ◌≤◌, ◌<◌, ◌≡◌, ◌⊎◌, ◌∙◌, sym, refl, true, false, ltb, ◌==◌, arith, Bool-cases,
  inl, inr,
}
use Prim.Native.Nat.{min}
use wyrm_os.Base.Word.{u64}
use wyrm_os.Libc.Bytes.{Bytes}
use wyrm_os.Libc.Memory.{memcpy, copied, memcpy-memmove, memmove-copied}
use wyrm_os.Exec.Initrd.{FsNode, ram_read}

memcpy-copied :
    (m : Bytes) (dest src n : ℕ)
    → (dest ≤ src) ⊎ (src + n ≤ dest)
    → (q : ℕ) → (memcpy m dest src n).1 q ≡ copied m dest src n q
memcpy-copied m dest src n apart q =
    memcpy-memmove m dest src n apart q ∙ (memmove-copied m dest src n).1 q

copied_zero : (m : Bytes) (dest src q : ℕ) → copied m dest src 0 q ≡ m q
copied_zero m dest src q = ground arith

-- __ram_read of a range that does not wrap around, into a buffer apart from the file, reads the bytes
-- of the file from the offset on, as many as were asked for or are left, and changes no other byte.
pub ram_read-copied :
    (ram : FsNode) (m : Bytes) (offset size buffer : ℕ)
    → offset + size < 2 ^ 64
    → (buffer + size ≤ ram.meta) ⊎ (ram.meta + ram.size ≤ buffer)
    → ((ram_read ram m offset size buffer).0 ≡ min size (ram.size - offset))
      × ((q : ℕ)
          → (ram_read ram m offset size buffer).1 q
            ≡ copied m buffer (ram.meta + offset) (min size (ram.size - offset)) q)
unfolding ram_read
ram_read-copied ram m offset size buffer fits apart =
    let end : u64 (offset + size) ≡ offset + size = omega arith in
    rw end (elim (Bool-cases (ltb ram.size offset)) [
      | inl e ↦
          let none_left : min size (ram.size - offset) ≡ 0 = ground arith in
          rw (e, none_left) (refl, λ q. sym (copied_zero m buffer (ram.meta + offset) q))
      | inr e ↦ elim (Bool-cases (ltb ram.size (offset + size))) [
        | inl l ↦
            let rest : min size (ram.size - offset) ≡ ram.size - offset = ground arith in
            elim (Bool-cases (ram.size - offset == 0)) [
              | inl z ↦
                  let z' : ram.size - offset ≡ 0 = ground arith in
                  rw (e, l, z, rest, z')
                    (refl, λ q. sym (copied_zero m buffer (ram.meta + offset) q))
              | inr z ↦
                  rw (e, l, z, rest)
                    (
                      refl,
                      memcpy-copied m buffer (ram.meta + offset) (ram.size - offset)
                          (apart_rest e l),
                    )
            ]
        | inr l ↦
            let all : min size (ram.size - offset) ≡ size = ground arith in
            rw (e, l, all) (refl, memcpy-copied m buffer (ram.meta + offset) size (apart_all e l))
      ]
    ])
  where
    apart_rest :
        ltb ram.size offset ≡ false
        → ltb ram.size (offset + size) ≡ true
        → (buffer ≤ ram.meta + offset) ⊎ (ram.meta + offset + (ram.size - offset) ≤ buffer)
    apart_rest e l = elim apart [ inl a ↦ inl (omega arith) | inr b ↦ inr (ground arith) ]

    apart_all :
        ltb ram.size offset ≡ false
        → ltb ram.size (offset + size) ≡ false
        → (buffer ≤ ram.meta + offset) ⊎ (ram.meta + offset + size ≤ buffer)
    apart_all e l = elim apart [ inl a ↦ inl (omega arith) | inr b ↦ inr (ground arith) ]

-- Where the offset and the size wrap around to a place in the file, __ram_read copies as many bytes
-- as were asked for, however many the file has.
pub ram_read_overrun :
    (ram : FsNode) (m : Bytes) (offset size buffer : ℕ)
    → offset ≤ ram.size
    → 2 ^ 64 ≤ offset + size
    → offset + size ≤ 2 ^ 64 + ram.size
    → ram.size < 2 ^ 64
    → (ram_read ram m offset size buffer ≡ (size, (memcpy m buffer (ram.meta + offset) size).1))
      × (ram.size - offset < size)
unfolding ram_read
ram_read_overrun ram m offset size buffer low wraps high fits =
    let end : u64 (offset + size) ≡ offset + size - 2 ^ 64 = omega arith in
    let e : ltb ram.size offset ≡ false = ground arith in
    let l : ltb ram.size (offset + size - 2 ^ 64) ≡ false = ground arith in
    (rw (end, e, l) refl, omega arith)
