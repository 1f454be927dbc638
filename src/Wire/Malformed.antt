-- ===== src/Wire/Malformed.antt =====
-- The getters of peermsg.go on any payload, well formed or not.
use totorrent.Base.{
  ℕ, ◌+◌, ◌-◌, ◌≡◌, refl, ◌≢◌, ◌↔◌, ◌≤◌, ◌<◌, ◌⊎◌, inl, inr, [], ◌∷◌, Bytes, none, some, arith,
  Option-cases,
}
use totorrent.Base.{length, drop, length-take, length-drop}
use totorrent.Base.{ok, err, panic, err_peermsg_func}
use totorrent.Base.Words.{be_uint32, read_at}
use totorrent.Wire.Fields.{
  uint32_at, request_get_block, piece_get_block, piece_get_block_buff, request_get_block_length,
}

be_uint32-length_four : (b : Bytes) → length b ≡ 4 → (n : ℕ) × (be_uint32 b ≡ ok n)
unfolding be_uint32
be_uint32-length_four [] h = absurd (omega arith)
be_uint32-length_four (x ∷ []) h = absurd (omega arith)
be_uint32-length_four (x ∷ y ∷ []) h = absurd (omega arith)
be_uint32-length_four (x ∷ y ∷ z ∷ []) h = absurd (omega arith)
be_uint32-length_four (x ∷ y ∷ z ∷ w ∷ r) h = (_, refl)

read_at-some :
    (s : Bytes) (n off : ℕ) (b : Bytes)
    → read_at s n off ≡ some b
    → (length b ≡ n) × (off + n ≤ length s) × (off < length s)
unfolding read_at
read_at-some s n off b e = ground (arith, length-take n (drop off s), length-drop off s)

read_at-none :
    (s : Bytes) (n off : ℕ) → read_at s n off ≡ none → (length s ≤ off) ⊎ (length s < off + n)
unfolding read_at
read_at-none s n off e = ground arith

-- A field is there exactly when the payload reaches to its end.
abbrev Field : Bytes → ℕ → Type 0
Field p off =
    ((length p < off + 4) × (uint32_at p off ≡ err err_peermsg_func))
    ⊎ ((n : ℕ) × (off + 4 ≤ length p) × (uint32_at p off ≡ ok n))

uint32_at-Field : (p : Bytes) (off : ℕ) → Field p off
unfolding uint32_at
uint32_at-Field p off = elim (Option-cases (read_at p 4 off)) [
  | inl e ↦ inl (omega (arith, read_at-none p 4 off e), rw e)
  | inr (b, e) ↦
      let (n, en) = be_uint32-length_four b (read_at-some p 4 off b e).0 in
      inr (n, (read_at-some p 4 off b e).1, rw e en)
]

-- The bytes of a block that is there are not empty.
block_buff_cases :
    (p : Bytes)
    → 8 ≤ length p
    → (piece_get_block_buff p ≡ err err_peermsg_func)
      ⊎ ((b : Bytes) × (0 < length b) × (piece_get_block_buff p ≡ ok b))
unfolding piece_get_block_buff
block_buff_cases p h = elim (Option-cases (read_at p (length p - 8) 8)) [
  | inl e ↦ inl (ground (arith, e))
  | inr (b, e) ↦ inr (b, omega (arith, read_at-some p (length p - 8) 8 b e), ground (arith, e))
]

-- No PIECE payload makes `GetBlock` panic: that a block has bytes is checked before it divides by
-- their number.
pub piece_get_block-ne-panic : (p : Bytes) → piece_get_block p ≢ panic
piece_get_block-ne-panic p = elim (uint32_at-Field p 4) [
  | inl (_, e) ↦ unfold piece_get_block in ground (arith, e)
  | inr (begin, h, e) ↦ elim (block_buff_cases p (omega arith)) [
    | inl f ↦ unfold piece_get_block in ground (arith, e, f)
    | inr (b, hb, f) ↦ elim (uint32_at-Field p 0) [
      | inl (_, g) ↦ unfold piece_get_block in ground (arith, e, f, g)
      | inr (i, _, g) ↦ unfold piece_get_block in ground (arith, e, f, g)
    ]
  ]
]

-- `GetBlock` of a REQUEST panics exactly when the payload has a length field, and that field is 0.
pub request_get_block_panics :
    (p : Bytes) → (request_get_block p ≡ panic) ↔ (request_get_block_length p ≡ ok 0)
unfolding request_get_block
request_get_block_panics p = elim (uint32_at-Field p 8) [
  | inl (_, e) ↦ elim (uint32_at-Field p 4) [
    | inl (_, f) ↦ ground (arith, e, f)
    | inr (b, _, f) ↦ ground (arith, e, f)
  ]
  | inr (n, h, e) ↦ elim (uint32_at-Field p 4) [
    | inl (s, _) ↦ absurd (omega arith)
    | inr (b, _, f) ↦ elim (uint32_at-Field p 0) [
      | inl (s, _) ↦ absurd (omega arith)
      | inr (i, _, g) ↦ ground (arith, e, f, g)
    ]
  ]
]
