-- ===== src/Storage.antt =====
-- core/file.go: the storage of uploaded files. The file system and the random names are parameters; the
-- lock is the RWMutex of package sync, of one goroutine.
pub mod Stuck
mod Samples
use gin_t.Common.{
  ℕ, zero, suc, ◌-◌, Bool, true, false, ◌&&◌, ◌||◌, not, Option, none, some, List, [], ◌∷◌, ◌++◌,
  ◌==◌, leb, length, if◌then◌else◌,
}
use gin_t.Text.{Bytes}
use gin_t.Outcome.{Outcome, ok, panic, out_of_fuel, unlock_of_unlocked, ◌>>=◌}

-- What os.Stat finds, or its error.
pub data Stat : Type 0 where
  found not_exist exist other_error : Stat

-- What the storage calls: os.Stat, os.MkdirAll, os.Create and io.Copy with the error of each, path.Join,
-- and the random texts of common.GetRandomString, by how many there were before.
pub record FileSystem (E : Type 0) : Type 0 where
  pub stat : Bytes → Stat
  pub mkdir_all : Bytes → Option E
  pub create : Bytes → Option E
  pub copy : Bytes → Option E
  pub join : Bytes → Bytes → Bytes
  pub random_string : ℕ → Bytes

-- A file of a form: whether it can be opened, and its name.
pub record FileHeader (E : Type 0) : Type 0 where
  pub open_error : Option E
  pub filename : Bytes

-- os.IsNotExist and os.IsExist
abbrev is_not_exist : Stat → Bool
is_not_exist not_exist = true
is_not_exist _ = false

abbrev is_exist : Stat → Bool
is_exist exist = true
is_exist _ = false

-- fileExists, whose error is always nil: no file is reported as one that exists.
unfoldable pub file_exists : Stat → Bool
file_exists found = true
file_exists error = is_not_exist error

pub record Lock : Type 0 where
  pub readers : ℕ
  pub writing : Bool

abbrev pub read_lock : Lock → Lock
read_lock l = record l { readers = suc l.readers }

abbrev pub write_lock : Lock → Lock
write_lock l = record l { writing = true }

-- Unlock of a lock that is not locked for writing ends the program.
unfoldable pub unlock : Lock → Outcome Lock
unlock l = if l.writing then ok (record l { writing = false }) else panic unlock_of_unlocked

-- The path and the error of Save; the path is empty behind an error, but that of the copy.
abbrev pub Saved : Type 0 → Type 0
Saved E = (Bytes × Option E) × Lock

-- `if err != nil { return "", err }`
abbrev pub unless_failed {ℓ} :
    {E : Type ℓ}
    → Option E
    → Lock
    → Outcome ((Bytes × Option E) × Lock)
    → Outcome ((Bytes × Option E) × Lock)
unless_failed none l next = next
unless_failed (some e) l next = ok (([], some e), l)

module _ {E : Type 0} (fs : FileSystem E) where
  -- the loop, with the number of the round; it runs on fuel
  unfoldable pub find_name : ℕ → ℕ → Bytes → Bytes → Outcome Bytes
  unfolding file_exists
  find_name zero k root filename = out_of_fuel
  find_name (suc fuel) k root filename =
      let again = find_name fuel (suc k) root (fs.random_string k ++ filename) in
      if file_exists (fs.stat (fs.join root filename)) then again else ok (fs.join root filename)

  -- getAlternativeName: RLock, and a deferred Unlock
  unfoldable pub get_alternative_name : ℕ → Bytes → Bytes → Lock → Outcome (Bytes × Lock)
  unfolding find_name unlock
  get_alternative_name fuel root filename l = do
    dst ← find_name fuel 0 root filename
    l' ← unlock (read_lock l)
    ok (dst, l')

  -- the directory is made if Stat fails because it exists
  unfoldable pub make_root : Bytes → Option E
  make_root [] = none
  make_root (c ∷ root) = if is_exist (fs.stat (c ∷ root)) then fs.mkdir_all (c ∷ root) else none

  -- from the second Lock on; the deferred calls run whatever the result is
  unfoldable pub write_file : Bytes → Lock → Outcome (Saved E)
  unfolding unlock
  write_file dst l = do
    l' ← unlock (write_lock l)
    elim (fs.create dst) [ some e ↦ ok (([], some e), l') | none ↦ ok ((dst, fs.copy dst), l') ]

  unfoldable pub save : ℕ → Bytes → FileHeader E → Lock → Outcome (Saved E)
  save fuel root file l = unless_failed file.open_error l (
      unless_failed (make_root root) l
        (do (dst, l') ← get_alternative_name fuel root file.filename l; write_file dst l'))

-- SetMediaRouter, on the field MediaRoot
unfoldable set_media_router : Bytes → Bytes → Bytes
set_media_router media_root root = media_root
