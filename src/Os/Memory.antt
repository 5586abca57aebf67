-- ===== src/Os/Memory.antt =====
-- A file system in memory, in which every call succeeds where it can.
use roll.Prelude.{
  ℕ, zero, suc, ◌+◌, ◌/◌, ◌%◌, ◌≡◌, ◌≢◌, refl, sym, ◌∙◌, Bool, true, false, Option, none, some, [],
  ◌∷◌, ◌++◌, All, ltb, if◌then◌else◌, same_bytes, same_bytes→eq, same_bytes_self, arith,
}
use roll.Io.{Bytes}
use roll.Os.{
  FileSystem, IsFileSystem, IsDigitChar, FileStatus, absent, regular, same, distinct, granted,
}

-- What stands at each path.
abbrev pub Files : Type 0
Files = Bytes → Option Bytes

unfoldable pub set : Bytes → Option Bytes → Files → Files
set p v files q = if same_bytes q p then v else files q

abbrev status_of : Option Bytes → FileStatus
status_of none = absent
status_of (some bytes) = regular

abbrev present : Option Bytes → Bool
present none = false
present (some bytes) = true

abbrev create : Bytes → Option Bytes → Files → Bool × Files
create p none files = (true, set p (some []) files)
create p (some bytes) files = (false, files)

abbrev append : Bytes → Bytes → Option Bytes → Files → Bool × Files
append p more none files = (false, files)
append p more (some bytes) files = (true, set p (some (bytes ++ more)) files)

abbrev descriptor : Option Bytes → Option ℕ
descriptor none = none
descriptor (some bytes) = some 3

abbrev move : Bytes → Bytes → Option Bytes → Files → Bool × Files
move p r none files = (false, files)
move p r (some bytes) files = (true, set r (some bytes) (set p none files))

-- The digits of a number below `10 ^ rounds`, before what follows.
unfoldable pub digits_before : ℕ → ℕ → Bytes → Bytes
digits_before zero n after = after
digits_before (suc rounds) n after =
    let more = digits_before rounds (n / 10) ((b'0' + n % 10) ∷ after) in
    if ltb n 10 then (b'0' + n % 10) ∷ after else more

digits_before-digits :
    (rounds n : ℕ) (after : Bytes)
    → All IsDigitChar after
    → All IsDigitChar (digits_before rounds n after)
unfolding digits_before
digits_before-digits zero n after h = h
digits_before-digits (suc rounds) n after h =
    go (digits_before-digits rounds (n / 10) ((b'0' + n % 10) ∷ after) (one, h)) (ltb n 10)
  where
    one : IsDigitChar (b'0' + n % 10)
    one = omega arith

    go :
        All IsDigitChar (digits_before rounds (n / 10) ((b'0' + n % 10) ∷ after))
        → (b : Bool)
        → All IsDigitChar (
            if b
            then (b'0' + n % 10) ∷ after
            else digits_before rounds (n / 10) ((b'0' + n % 10) ∷ after))
    go more true = (one, h)
    go more false = more

-- One directory of files by their names; the random numbers are all 7.
abbrev pub memory_system : FileSystem
memory_system = record {
  State = Files;
  Location = Bytes;
  is_empty = λ p. same_bytes p [];
  filename = λ p. p;
  parent_path = λ p. [];
  join = λ p name. name;
  decimal = λ n. digits_before 20 n [];
  random = λ s. (7, s);
  status = λ p s. (status_of (s p), s);
  exists = λ p s. (present (s p), s);
  equivalent = λ p r s. ((if same_bytes p r then same else distinct), s);
  permissions = λ p r s. (granted, s);
  open_exclusive = λ p s. create p (s p) s;
  write = λ p bytes s. append p bytes (s p) s;
  close = λ p s. (true, s);
  has_error = λ p s. false;
  open_descriptor = λ b p s. (descriptor (s p), s);
  open_directory = λ p s. (some 3, s);
  fsync = λ fd s. (true, s);
  close_descriptor = λ fd s. (true, s);
  rename = λ p r s. move p r (s p) s;
  remove = λ p s. set p none s;
  lookup = λ p s. s p;
}

set-at : (p : Bytes) (v : Option Bytes) (files : Files) → set p v files p ≡ v
unfolding set
set-at p v files = rw (same_bytes_self p)

set-else : (q p : Bytes) (v : Option Bytes) (files : Files) → q ≢ p → set p v files q ≡ files q
unfolding set
set-else q p v files ne = go (same_bytes q p) refl
  where
    go : (b : Bool) → same_bytes q p ≡ b → (if b then v else files q) ≡ files q
    go true e = absurd (ne (same_bytes→eq q p e))
    go false e = refl

create-else : (q p : Bytes) (v : Option Bytes) (s : Files) → q ≢ p → (create p v s).1 q ≡ s q
create-else q p none s ne = set-else q p (some []) s ne
create-else q p (some bytes) s ne = refl

create-fails :
    (q p : Bytes) (v : Option Bytes) (s : Files)
    → (create p v s).0 ≡ false
    → (create p v s).1 q ≡ s q
create-fails q p none s h = absurd cc
create-fails q p (some bytes) s h = refl

create-absent : (p : Bytes) (v : Option Bytes) (s : Files) → (create p v s).0 ≡ true → v ≡ none
create-absent p none s h = refl
create-absent p (some bytes) s h = absurd cc

create-creates :
    (p : Bytes) (v : Option Bytes) (s : Files)
    → (create p v s).0 ≡ true
    → (create p v s).1 p ≡ some []
create-creates p none s h = set-at p (some []) s
create-creates p (some bytes) s h = absurd cc

append-else :
    (q p : Bytes) (more : Bytes) (v : Option Bytes) (s : Files)
    → q ≢ p
    → (append p more v s).1 q ≡ s q
append-else q p more none s ne = refl
append-else q p more (some bytes) s ne = set-else q p (some (bytes ++ more)) s ne

move-fails :
    (q p r : Bytes) (v : Option Bytes) (s : Files)
    → (move p r v s).0 ≡ false
    → (move p r v s).1 q ≡ s q
move-fails q p r none s h = refl
move-fails q p r (some bytes) s h = absurd cc

move-target :
    (p r : Bytes) (v : Option Bytes) (s : Files) → (move p r v s).0 ≡ true → (move p r v s).1 r ≡ v
move-target p r none s h = absurd cc
move-target p r (some bytes) s h = set-at r (some bytes) (set p none s)

move-source :
    (p r : Bytes) (v : Option Bytes) (s : Files)
    → (move p r v s).0 ≡ true
    → r ≢ p
    → (move p r v s).1 p ≡ none
move-source p r none s h ne = absurd cc
move-source p r (some bytes) s h ne =
    set-else p r (some bytes) (set p none s) (λ e. ne (sym e)) ∙ set-at p none s

move-others :
    (q p r : Bytes) (v : Option Bytes) (s : Files) → q ≢ p → q ≢ r → (move p r v s).1 q ≡ s q
move-others q p r none s np nr = refl
move-others q p r (some bytes) s np nr =
    set-else q r (some bytes) (set p none s) nr ∙ set-else q p none s np

pub memory_laws : IsFileSystem memory_system
memory_laws = record {
  status-lookup = λ q p s. refl;
  exists-lookup = λ q p s. refl;
  equivalent-lookup = λ q p r s. refl;
  permissions-lookup = λ q p r s. refl;
  decimal-digits = λ n. digits_before-digits 20 n [] tt;
  join-filename = λ p name plain. refl;
  random-lookup = λ q s. refl;
  open_exclusive-fails = λ q p s h. create-fails q p (s p) s h;
  open_exclusive-absent = λ p s h. create-absent p (s p) s h;
  open_exclusive-creates = λ p s h. create-creates p (s p) s h;
  open_exclusive-others = λ q p s ne. create-else q p (s p) s ne;
  write-lookup = λ q p bytes s ne. append-else q p bytes (s p) s ne;
  close-lookup = λ q p s ne. refl;
  open_descriptor-lookup = λ q p b s. refl;
  open_directory-lookup = λ q p s. refl;
  fsync-lookup = λ q fd s. refl;
  close_descriptor-lookup = λ q fd s. refl;
  rename-fails = λ q p r s h. move-fails q p r (s p) s h;
  rename-target = λ p r s h. move-target p r (s p) s h;
  rename-source = λ p r s h ne. move-source p r (s p) s h ne;
  rename-others = λ q p r s np nr. move-others q p r (s p) s np nr;
  remove-others = λ q p s ne. set-else q p none s ne;
}
