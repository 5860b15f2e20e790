-- ===== src/History/Widths.antt =====
-- The numbers of the BigInteger columns of app/models.py.
use seismic_trace_resumable.Prelude.{ℕ, ◌<◌, ◌≡◌, Text, List, [], ◌∷◌, some, arith}
use seismic_trace_resumable.Hashlib.{Hashlib, IsLawful}
use seismic_trace_resumable.Model.{UploadSession, Chunk}
use seismic_trace_resumable.Storage.{Db, get_session, chunks_of}
use seismic_trace_resumable.Layout.{Tiles, Tiles-le}
use seismic_trace_resumable.Invariant.{IsWellFormed}
use seismic_trace_resumable.History.Lives.{Lives, Lives-IsWellFormed}
use seismic_trace_resumable.History.Terms.{HasTerms, Lives-HasTerms}

-- The numbers of the rows of chunks.
abbrev pub AllNarrow : ℕ → List Chunk → Type 0
AllNarrow bound [] = Unit
AllNarrow bound (c ∷ cs) =
    (c.start_offset < bound) × (c.end_offset < bound) × (c.length < bound) × AllNarrow bound cs

-- The numbers of a session and of its chunks.
pub record IsNarrow (bound : ℕ) (id : Text) (db : Db) : Type 0 where
  pub session : UploadSession
  pub found : get_session db id ≡ some session
  pub total : session.total_bytes < bound
  pub confirmed : session.confirmed_offset < bound
  pub chunks : AllNarrow bound (chunks_of db id)

Tiles-AllNarrow :
    (H : Hashlib) (bound a : ℕ) (cs : List Chunk) (b : ℕ)
    → Tiles H a cs b
    → b < bound
    → AllNarrow bound cs
Tiles-AllNarrow H bound a [] b h narrow = tt
Tiles-AllNarrow H bound a (c ∷ cs) b (intact, here, rest) narrow =
    let inside = Tiles-le H c.end_offset cs b rest in
    let span = intact.span in
    (
      omega (arith, inside, span),
      omega (arith, inside),
      omega (arith, inside, span),
      Tiles-AllNarrow H bound c.end_offset cs b rest narrow,
    )

-- When the registered length of a session is below a bound, so are at any later time its checkpoint and
-- the offsets and lengths of all its chunks, whatever requests and compactions come between.
pub Lives-IsNarrow :
    (H : Hashlib) (L : IsLawful H) (bound : ℕ) {db db' : Db}
    → Lives H db db'
    → IsWellFormed H db
    → (id : Text) (total : ℕ) (whole : Text) → HasTerms id total whole db
    → total < bound
    → IsNarrow bound id db'
Lives-IsNarrow H L bound {db' = db'} life w id total whole t narrow =
    let later = Lives-HasTerms H L id total whole life w t in
    let u : UploadSession = later.session in
    let (named, sound) = (Lives-IsWellFormed H L life w).sound id u later.found in
    let below : u.confirmed_offset < bound = omega (arith, sound.bounded, later.long) in
    record {
      session = u;
      found = later.found;
      total = omega (arith, later.long);
      confirmed = below;
      chunks =
          rw (← named)
            (Tiles-AllNarrow H bound 0 (chunks_of db' u.id) u.confirmed_offset sound.tiles below);
    }
