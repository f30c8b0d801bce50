-- ===== src/Control/Bounds.antt =====
-- control_packets.hpp (server/src/server): which length fields keep `encrypted_msg` in its packet.
use steamos_containerized.Common.{
  ◌⊎◌, refl, length, Text, ℕ, ◌+◌, ◌^◌, ◌≤◌, ◌<◌, ◌≡◌, ◌↔◌, some, arith, ltb, Bool-cases, inl, inr,
}
use steamos_containerized.Control.{le16_at}
use steamos_containerized.Control.Layout.{View, msg_size, encrypted_msg}

-- Where the view of a packet is, against its length field.
abbrev pub ViewOf : Text → ℕ → View → Type 0
ViewOf packet len v =
    ((v.offset + v.size ≤ length packet) ↔ ((20 ≤ len) × (len + 4 ≤ length packet)))
    × (((20 ≤ len) × (v.size + 20 ≡ len)) ⊎ ((len < 20) × (v.size + 20 ≡ len + 2 ^ 64)))

-- For a packet of fewer than 2 ^ 63 bytes whose length field holds a 16-bit number, the view of the
-- encrypted part is made whatever the number is; it is within the packet exactly if the number is at
-- least 20 and at most the bytes after the first four. Its size is the number less 20, and 2 ^ 64 more
-- than that, which wrapped around, if the number is below 20.
pub encrypted_msg_in_packet :
    (packet : Text) (len : ℕ)
    → le16_at 2 packet ≡ some len
    → len < 65536
    → length packet < 2 ^ 63
    → (v : View) × (encrypted_msg packet ≡ some v) × ViewOf packet len v
unfolding encrypted_msg
encrypted_msg_in_packet packet len e w n =
    let v : View = record { offset = 24; size = msg_size len } in
    (
      v,
      rw e refl,
      (
        (λ h. (omega arith, omega arith), λ h. omega arith),
        elim (Bool-cases (ltb len 20)) [
          | inl t ↦ inr (ground arith, ground arith)
          | inr f ↦ inl (ground arith, ground arith)
        ],
      ),
    )
