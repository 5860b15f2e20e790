-- ===== src/Layout.antt =====
-- What the rows of an archive are meant to be: chunks that tile a span, each with its own length
-- and digest, and the bytes that they hold together.
use seismic_trace_resumable.Prelude.{
  ℕ, ◌+◌, ◌≤◌, ◌<◌, ◌≡◌, refl, sym, ap, ◌∙◌, Bytes, false, List, [], ◌∷◌, ◌++◌, append_assoc,
  length, length-append, arith,
}
use seismic_trace_resumable.Hashlib.{Hashlib, digest}
use seismic_trace_resumable.Model.{Chunk}
use seismic_trace_resumable.Storage.{insert_by_offset, has_offset}

abbrev pub contents : List Chunk → Bytes
contents [] = []
contents (c ∷ cs) = c.payload ++ contents cs

-- A row that is what the client sent and the server checked.
pub record IsIntact (H : Hashlib) (c : Chunk) : Type 0 where
  pub span : c.start_offset + c.length ≡ c.end_offset
  pub filled : length c.payload ≡ c.length
  pub digested : digest H c.payload ≡ c.sha256
  pub nonempty : c.start_offset < c.end_offset

-- The chunks follow one another from `a` to `b` with no gap.
abbrev pub Tiles : Hashlib → ℕ → List Chunk → ℕ → Type 0
Tiles H a [] b = a ≡ b
Tiles H a (c ∷ cs) b = IsIntact H c × (c.start_offset ≡ a) × Tiles H c.end_offset cs b

pub contents-append : (cs ds : List Chunk) → contents (cs ++ ds) ≡ contents cs ++ contents ds
contents-append [] ds = refl
contents-append (c ∷ cs) ds =
    ap (λ l. c.payload ++ l) (contents-append cs ds)
    ∙ sym (append_assoc c.payload (contents cs) (contents ds))

module _ (H : Hashlib) where
  pub Tiles-le : (a : ℕ) (cs : List Chunk) (b : ℕ) → Tiles H a cs b → a ≤ b
  Tiles-le a [] b h = omega arith
  Tiles-le a (c ∷ cs) b h = omega (arith, h.0.nonempty, Tiles-le c.end_offset cs b h.2)

  -- The chunks hold as many bytes as the span has.
  pub length-contents :
      (a : ℕ) (cs : List Chunk) (b : ℕ) → Tiles H a cs b → a + length (contents cs) ≡ b
  length-contents a [] b h = omega arith
  length-contents a (c ∷ cs) b h = omega (
    arith,
    h.0.span,
    h.0.filled,
    length-contents c.end_offset cs b h.2,
    length-append c.payload (contents cs),
  )

  pub Tiles-append :
      (a : ℕ) (cs : List Chunk) (b : ℕ) (ds : List Chunk) (e : ℕ)
      → Tiles H a cs b
      → Tiles H b ds e
      → Tiles H a (cs ++ ds) e
  Tiles-append a [] b ds e h k = rw h k
  Tiles-append a (c ∷ cs) b ds e h k = (h.0, h.1, Tiles-append c.end_offset cs b ds e h.2 k)

  -- No chunk of the span starts at its end or later.
  pub has_offset-end :
      (a : ℕ) (cs : List Chunk) (b k : ℕ) → Tiles H a cs b → b ≤ k → has_offset k cs ≡ false
  has_offset-end a [] b k h le = refl
  has_offset-end a (c ∷ cs) b k h le = ground (
    arith,
    h.0.nonempty,
    Tiles-le c.end_offset cs b h.2,
    has_offset-end c.end_offset cs b k h.2 le,
  )

  pub insert_by_offset-end :
      (a : ℕ) (cs : List Chunk) (b : ℕ) (c : Chunk)
      → Tiles H a cs b
      → b ≤ c.start_offset
      → insert_by_offset c cs ≡ cs ++ c ∷ []
  unfolding insert_by_offset
  insert_by_offset-end a [] b c h le = refl
  insert_by_offset-end a (d ∷ cs) b c h le = ground (
    arith,
    h.0.nonempty,
    Tiles-le d.end_offset cs b h.2,
    insert_by_offset-end d.end_offset cs b c h.2 le,
  )

-- The chunks follow one another, and each has its length and digest; an empty one may stand among
-- them. This is what a read verifies.
abbrev pub Chain : Hashlib → ℕ → List Chunk → ℕ → Type 0
Chain H a [] b = a ≡ b
Chain H a (c ∷ cs) b =
    (c.start_offset ≡ a)
    × (c.start_offset + c.length ≡ c.end_offset)
    × (length c.payload ≡ c.length)
    × (digest H c.payload ≡ c.sha256)
    × Chain H c.end_offset cs b

pub Tiles-Chain : (H : Hashlib) (a : ℕ) (cs : List Chunk) (b : ℕ) → Tiles H a cs b → Chain H a cs b
Tiles-Chain H a [] b h = h
Tiles-Chain H a (c ∷ cs) b h =
    (h.1, h.0.span, h.0.filled, h.0.digested, Tiles-Chain H c.end_offset cs b h.2)

pub length-contents-Chain :
    (H : Hashlib) (a : ℕ) (cs : List Chunk) (b : ℕ) → Chain H a cs b → a + length (contents cs) ≡ b
length-contents-Chain H a [] b h = omega arith
length-contents-Chain H a (c ∷ cs) b h =
    omega (
      arith,
      h,
      length-contents-Chain H c.end_offset cs b h.4,
      length-append c.payload (contents cs),
    )
