-- ===== src/Os.antt =====
-- The operating system as src/OutputTransaction.cpp uses it, a parameter of the model: paths, what
-- stands at them, and the calls that inspect, create, flush, rename and remove files.
pub mod Memory
use roll.Prelude.{ℕ, ◌≤◌, ◌≡◌, ◌≢◌, Bool, true, false, Option, some, none, [], All}
use roll.Io.{Bytes}

-- What `std::filesystem::status` reports. `failed` is an error code other than that of a missing file.
pub data FileStatus : Type 0 where
  absent regular irregular failed : FileStatus

-- What `std::filesystem::equivalent` reports.
pub data Comparison : Type 0 where
  same distinct incomparable : Comparison

-- The error code that `std::filesystem::permissions` leaves.
pub data Permission : Type 0 where
  granted missing refused : Permission

-- Each call may fail, and takes the state of the whole system to its next. A file that is being written is named by its
-- path. `join` is `operator/`, `decimal` is `std::to_string`, and `random` is a call of a `std::random_device`. `write` appends; `close` reports the success of `FileIO::close` and `has_error` is the flag after it.
-- `open_descriptor` opens for writing where its first argument is true, and `open_directory` opens the directory that a path is in.
pub record FileSystem : Type 1 where
  pub State : Type 0
  pub Location : Type 0
  pub is_empty : Location → Bool
  pub filename : Location → Bytes
  pub parent_path : Location → Location
  pub join : Location → Bytes → Location
  pub decimal : ℕ → Bytes
  pub random : State → ℕ × State
  pub status : Location → State → FileStatus × State
  pub exists : Location → State → Bool × State
  pub equivalent : Location → Location → State → Comparison × State
  pub permissions : Location → Location → State → Permission × State
  pub open_exclusive : Location → State → Bool × State
  pub write : Location → Bytes → State → Bool × State
  pub close : Location → State → Bool × State
  pub has_error : Location → State → Bool
  pub open_descriptor : Bool → Location → State → Option ℕ × State
  pub open_directory : Location → State → Option ℕ × State
  pub fsync : ℕ → State → Bool × State
  pub close_descriptor : ℕ → State → Bool × State
  pub rename : Location → Location → State → Bool × State
  pub remove : Location → State → State
  pub lookup : Location → State → Option Bytes

-- The characters of a decimal number.
abbrev pub IsDigitChar : ℕ → Type 0
IsDigitChar c = (b'0' ≤ c) × (c ≤ b'9')

-- No separator of directories.
abbrev pub IsPlain : ℕ → Type 0
IsPlain c = c ≢ b'/'

-- What the code relies on: the file name of a joined path, the digits of a number, and which calls change what stands at which path. `lookup` is what a reader of the path would get.
pub record IsFileSystem (F : FileSystem) : Type 0 where
  pub status-lookup : (q p : F.Location) (s : F.State) → F.lookup q (F.status p s).1 ≡ F.lookup q s
  pub exists-lookup : (q p : F.Location) (s : F.State) → F.lookup q (F.exists p s).1 ≡ F.lookup q s
  pub equivalent-lookup :
      (q p r : F.Location) (s : F.State) → F.lookup q (F.equivalent p r s).1 ≡ F.lookup q s
  pub permissions-lookup :
      (q p r : F.Location) (s : F.State) → F.lookup q (F.permissions p r s).1 ≡ F.lookup q s
  pub decimal-digits : (n : ℕ) → All IsDigitChar (F.decimal n)
  pub join-filename :
      (p : F.Location) (name : Bytes) → All IsPlain name → F.filename (F.join p name) ≡ name
  pub random-lookup : (q : F.Location) (s : F.State) → F.lookup q (F.random s).1 ≡ F.lookup q s
  pub open_exclusive-fails :
      (q p : F.Location) (s : F.State)
      → (F.open_exclusive p s).0 ≡ false
      → F.lookup q (F.open_exclusive p s).1 ≡ F.lookup q s
  pub open_exclusive-absent :
      (p : F.Location) (s : F.State) → (F.open_exclusive p s).0 ≡ true → F.lookup p s ≡ none
  pub open_exclusive-creates :
      (p : F.Location) (s : F.State)
      → (F.open_exclusive p s).0 ≡ true
      → F.lookup p (F.open_exclusive p s).1 ≡ some []
  pub open_exclusive-others :
      (q p : F.Location) (s : F.State) → q ≢ p → F.lookup q (F.open_exclusive p s).1 ≡ F.lookup q s
  pub write-lookup :
      (q p : F.Location) (bytes : Bytes) (s : F.State)
      → q ≢ p
      → F.lookup q (F.write p bytes s).1 ≡ F.lookup q s
  pub close-lookup :
      (q p : F.Location) (s : F.State) → q ≢ p → F.lookup q (F.close p s).1 ≡ F.lookup q s
  pub open_descriptor-lookup :
      (q p : F.Location) (b : Bool) (s : F.State)
      → F.lookup q (F.open_descriptor b p s).1 ≡ F.lookup q s
  pub open_directory-lookup :
      (q p : F.Location) (s : F.State) → F.lookup q (F.open_directory p s).1 ≡ F.lookup q s
  pub fsync-lookup :
      (q : F.Location) (fd : ℕ) (s : F.State) → F.lookup q (F.fsync fd s).1 ≡ F.lookup q s
  pub close_descriptor-lookup :
      (q : F.Location) (fd : ℕ) (s : F.State)
      → F.lookup q (F.close_descriptor fd s).1 ≡ F.lookup q s
  pub rename-fails :
      (q p r : F.Location) (s : F.State)
      → (F.rename p r s).0 ≡ false
      → F.lookup q (F.rename p r s).1 ≡ F.lookup q s
  pub rename-target :
      (p r : F.Location) (s : F.State)
      → (F.rename p r s).0 ≡ true
      → F.lookup r (F.rename p r s).1 ≡ F.lookup p s
  pub rename-source :
      (p r : F.Location) (s : F.State)
      → (F.rename p r s).0 ≡ true
      → r ≢ p
      → F.lookup p (F.rename p r s).1 ≡ none
  pub rename-others :
      (q p r : F.Location) (s : F.State)
      → q ≢ p
      → q ≢ r
      → F.lookup q (F.rename p r s).1 ≡ F.lookup q s
  pub remove-others :
      (q p : F.Location) (s : F.State) → q ≢ p → F.lookup q (F.remove p s) ≡ F.lookup q s
