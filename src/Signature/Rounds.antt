-- ===== src/Signature/Rounds.antt =====
-- The rounds of `generate_signatures` of src/Signature.hpp on a file in memory.
use roll.Prelude.{
  ℕ, ◌+◌, ◌-◌, ◌≤◌, ◌<◌, ◌≡◌, refl, sym, ap, ◌∙◌, Bool, true, false, Option, none, some, [], ◌∷◌,
  ◌++◌, leb, if◌then◌else◌, length, take, append_assoc, length-append, arith,
}
use roll.Format.{delta_digest_bytes, delta_max_chunk_size}
use roll.Io.{Bytes}
use roll.Io.Memory.{memory_seek}
use roll.Hash.{StrongHash, IsStrongHash}
use roll.Rolling.{RkFinger, initialize, compute_next, window_def_size}
use roll.Signature.{Signed, is_boundary, update_whole, emit_chunk, Chunker, cut, push_byte}
use roll.Signature.Tiles.{Tiles, Tiles-append}

pub initialize-window_size :
    (bytes : Bytes) (f : RkFinger) → (initialize bytes f).1.window_size ≡ f.window_size
unfolding initialize
initialize-window_size bytes f = refl

pub initialize-full :
    (bytes : Bytes) (f : RkFinger) → (initialize bytes f).0 ≡ leb f.window_size (length bytes)
unfolding initialize
initialize-full bytes f = refl

compute_next-window_size :
    (byte : ℕ) (f : RkFinger) → (compute_next byte f).window_size ≡ f.window_size
unfolding compute_next
compute_next-window_size byte f = refl

-- A chunk that has reached the largest size ends there.
pub is_boundary-max :
    (size fingerprint : ℕ) → is_boundary size fingerprint ≡ false → size < delta_max_chunk_size
unfolding is_boundary
is_boundary-max size fingerprint h = ground arith

module _ (U : StrongHash) (laws : IsStrongHash U) (file : Bytes) (compute : Bool) where
  abbrev pub State : Type 0
  State = Chunker U memory_seek

  -- The hash of the bytes that were cut, in the mode that wants it.
  abbrev pub hash_of : Bytes → Option U.State
  hash_of bytes = if compute then some (U.update bytes U.init) else none

  -- `past` is what was cut; the chunk and what is to come follow it.
  pub record IsAt (past : Bytes) (c : State) : Type 0 where
    pub tiles : Tiles U 0 past c.signed.chunks
    pub whole : c.signed.whole ≡ hash_of past
    pub content : c.file.0 ≡ file
    pub together : past ++ (c.chunk ++ c.file.1) ≡ file
    pub counted : c.bytes_read ≡ length past + length c.chunk
    pub window : c.fingerprint.window_size ≡ window_def_size
    pub small : length c.chunk ≤ delta_max_chunk_size

  hash_of-append :
      (past piece : Bytes) (w : Option U.State)
      → w ≡ hash_of past
      → update_whole U piece w ≡ hash_of (past ++ piece)
  hash_of-append past piece w e = ap (update_whole U piece) e ∙ go compute
    where
      go :
          (b : Bool)
          → update_whole U piece (if b then some (U.update past U.init) else none)
            ≡ (if b then some (U.update (past ++ piece) U.init) else none)
      go true = ap some (laws.update-update past piece U.init)
      go false = refl

  -- A chunk that is not empty is cut, and joins what was cut before.
  pub record Cuts (past : Bytes) (c : State) : Type 0 where
    pub result : State
    pub runs : cut U memory_seek c ≡ some result
    pub at : IsAt (past ++ c.chunk) result
    pub empty : result.chunk ≡ []
    pub same_file : result.file ≡ c.file

  pub cut-Cuts : (past : Bytes) (c : State) → IsAt past c → 0 < length c.chunk → Cuts past c
  unfolding cut emit_chunk
  cut-Cuts past c a some_byte = record {
    result = record c { chunk = []; signed = signed };
    runs = ground (arith, laws.enough);
    at = record {
      tiles = Tiles-append U c.chunk a.tiles (record {
        start = begins;
        size = refl;
        digest = refl;
        some = some_byte;
        small = a.small;
      });
      whole = hash_of-append past c.chunk c.signed.whole a.whole;
      content = a.content;
      together = append_assoc past c.chunk c.file.1 ∙ a.together;
      counted = a.counted ∙ omega (arith, length-append past c.chunk);
      window = a.window;
      small = omega arith;
    };
    empty = refl;
    same_file = refl;
  }
    where
      signed : Signed U.State
      signed = record {
        chunks =
            c.signed.chunks
            ++ (record {
              signature = c.fingerprint.fingerprint;
              hash = take delta_digest_bytes (U.hash c.chunk);
              start_offset = c.bytes_read - length c.chunk;
              chunk_size = length c.chunk;
            }
                ∷ []);
        whole = update_whole U c.chunk c.signed.whole;
      }

      begins : c.bytes_read - length c.chunk ≡ 0 + length past
      begins = omega (arith, a.counted)

  -- One more byte.
  pub push_byte-IsAt :
      (past rest : Bytes) (byte : ℕ) (c : State)
      → IsAt past c
      → c.file.1 ≡ byte ∷ rest
      → length c.chunk < delta_max_chunk_size
      → IsAt past (push_byte U memory_seek byte (c.file.0, rest) c)
  unfolding push_byte
  push_byte-IsAt past rest byte c a e h = record {
    tiles = a.tiles;
    whole = a.whole;
    content = a.content;
    together =
        ap (λ z. past ++ z) (append_assoc c.chunk (byte ∷ []) rest ∙ ap (λ z. c.chunk ++ z) (sym e))
        ∙ a.together;
    counted = omega (arith, a.counted, length-append c.chunk (byte ∷ []));
    window = compute_next-window_size byte c.fingerprint ∙ a.window;
    small = omega (arith, h, length-append c.chunk (byte ∷ []));
  }
