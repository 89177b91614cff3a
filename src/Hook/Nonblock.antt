-- ===== src/Hook/Nonblock.antt =====
-- O_NONBLOCK under the hooks of src/hook/hook.cc: a socket's descriptor stays non-blocking, whatever the
-- user sets, and the user reads back what was set.
use phase.Base.{
  ℕ, ◌-◌, ◌^◌, ◌≡◌, refl, ap, ◌∙◌, Bool, true, false, not, ◌||◌, Option, none, some, ◌==◌,
  if◌then◌else◌, arith, bit_and, bit_or, Bool-cases, inl, inr,
}
use phase.Base.SingleBits.{bit, or_bit, and_bit, bit_part, bit_added}
use phase.Hook.FdManager.{
  Os, FdCtx, FdManager, slot, get_look, o_nonblock, has_nonblock, with_nonblock, without_nonblock,
  new_ctx, socket_by, nonblock_bit,
}
use phase.Hook.FdLaws.{slot_beyond, IsValid}
use phase.Hook.Calls.{found, with_bit}

has_nonblock-bit : (flags : ℕ) → has_nonblock flags ≡ bit nonblock_bit flags
unfolding has_nonblock o_nonblock
has_nonblock-bit flags = ground (arith, and_bit 11 flags)

has_nonblock-with_nonblock : (flags : ℕ) → has_nonblock (with_nonblock flags) ≡ true
unfolding with_nonblock o_nonblock
has_nonblock-with_nonblock flags =
    has_nonblock-bit (bit_or flags (2 ^ 11))
    ∙ ap (bit 11) (or_bit 11 flags)
    ∙ ground (arith, bit_added 11 flags)

has_nonblock-without_nonblock : (flags : ℕ) → has_nonblock (without_nonblock flags) ≡ false
unfolding without_nonblock o_nonblock
has_nonblock-without_nonblock flags =
    has_nonblock-bit (flags - bit_and flags (2 ^ 11))
    ∙ ap (λ z. bit 11 (flags - z)) (and_bit 11 flags)
    ∙ ground (arith, bit_part 11 flags)

-- Setting or clearing the bit of flags that are that way already changes nothing.
pub with_bit-same : (flags : ℕ) → with_bit (has_nonblock flags) flags ≡ flags
unfolding with_nonblock without_nonblock o_nonblock has_nonblock
with_bit-same flags = ground (arith, or_bit 11 flags, and_bit 11 flags)

pub has_nonblock-with_bit : (v : Bool) (flags : ℕ) → has_nonblock (with_bit v flags) ≡ v
has_nonblock-with_bit true flags = has_nonblock-with_nonblock flags
has_nonblock-with_bit false flags = has_nonblock-without_nonblock flags

pub found-slot : (m : FdManager) (fd : ℕ) → found m fd ≡ slot m.datas fd
unfolding found get_look
found-slot m fd = ground (arith, slot_beyond m.datas fd)

-- What the code relies on in the system: F_SETFL sets O_NONBLOCK of the descriptor as told, and leaves
-- it as it is at every other descriptor, none being a duplicate.
pub record SetsFlags {S : Type 0} (os : Os S) : Type 0 where
  pub set_flags :
      (s : S) (fd arg other : ℕ)
      → has_nonblock (os.getfl (os.setfl s fd arg).1 other)
        ≡ (if other == fd then has_nonblock arg else has_nonblock (os.getfl s other))

-- What the code relies on in the system: FIONBIO sets O_NONBLOCK of its descriptor, and leaves it as it is
-- at every other.
pub record SetsFionbio {S : Type 0} (os : Os S) (ioctl_f : S → ℕ → Bool → S) : Type 0 where
  pub set_nonblock :
      (s : S) (fd : ℕ) (flag : Bool) (other : ℕ)
      → has_nonblock (os.getfl (ioctl_f s fd flag) other)
        ≡ (if other == fd then flag else has_nonblock (os.getfl s other))

-- A context is open; its socket is marked as non-blocking, and the system has it so.
abbrev pub Armed : {S : Type 0} → Os S → S → ℕ → Option FdCtx → Type 0
Armed os s fd none = Unit
Armed os s fd (some ctx) =
    (ctx.is_closed ≡ false)
    × (ctx.sys_nonblock ≡ ctx.is_socket)
    × ((not ctx.is_socket || has_nonblock (os.getfl s fd)) ≡ true)

-- So are all contexts of a table within its bounds.
pub record AllArmed {S : Type 0} (os : Os S) (s : S) (m : FdManager) : Type 0 where
  pub bounded : IsValid m
  pub armed : (fd : ℕ) → Armed os s fd (slot m.datas fd)

module _ {S : Type 0} (os : Os S) (law : SetsFlags os) where
  -- A call that sets the flag of a descriptor keeps the contexts of the others.
  pub armed_elsewhere :
      (s : S) (fd arg other : ℕ) (o : Option FdCtx)
      → (other == fd) ≡ false
      → Armed os s other o
      → Armed os (os.setfl s fd arg).1 other o
  armed_elsewhere s fd arg other none h a = tt
  armed_elsewhere s fd arg other (some ctx) h (c, n, b) = (
    c,
    n,
    ap (λ z. not ctx.is_socket || z)
          (law.set_flags s fd arg other
            ∙ ap (λ z. if z then has_nonblock arg else has_nonblock (os.getfl s other)) h)
        ∙ b,
  )

  pub armed_here :
      (s : S) (fd arg : ℕ) (o : Option FdCtx)
      → has_nonblock arg ≡ true
      → Armed os s fd o
      → Armed os (os.setfl s fd arg).1 fd o
  armed_here s fd arg none h a = tt
  armed_here s fd arg (some ctx) h (c, n, b) = (c, n, ground (arith, law.set_flags s fd arg fd, h))

  -- A context that is made for a descriptor.
  pub new_armed : (s : S) (fd : ℕ) → Armed os (new_ctx os s fd).1 fd (some (new_ctx os s fd).0)
  unfolding new_ctx
  new_armed s fd = (
    refl,
    refl,
    elim (Bool-cases (socket_by (os.fstat s fd))) [
      | inr e ↦ rw e refl
      | inl e ↦ elim (Bool-cases (has_nonblock (os.getfl s fd))) [
        | inl f ↦ rw (e, f) f
        | inr f ↦
            rw (e, f)
              (law.set_flags s fd (with_nonblock (os.getfl s fd)) fd
                ∙ ground (arith, has_nonblock-with_nonblock (os.getfl s fd)))
      ]
    ],
  )

  pub new_elsewhere :
      (s : S) (fd other : ℕ) (o : Option FdCtx)
      → (other == fd) ≡ false
      → Armed os s other o
      → Armed os (new_ctx os s fd).1 other o
  unfolding new_ctx
  new_elsewhere s fd other o h a = elim (Bool-cases (socket_by (os.fstat s fd))) [
    | inr e ↦ rw e a
    | inl e ↦ elim (Bool-cases (has_nonblock (os.getfl s fd))) [
      | inl f ↦ rw (e, f) a
      | inr f ↦ rw (e, f) (armed_elsewhere s fd (with_nonblock (os.getfl s fd)) other o h a)
    ]
  ]
