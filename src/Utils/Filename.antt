-- ===== src/Utils/Filename.antt =====
-- src/utils.cpp, `getUniqueFilename`; src/zerosum.cpp adds `zs.` in front and `.log` behind.
pub mod Sorted
use zerosum.Base.{
  ℕ, ◌+◌, ◌-◌, ◌%◌, ◌^◌, Bool, true, false, List, [], ◌∷◌, ◌++◌, length, if◌then◌else◌, replicate,
}
use zerosum.Text.{Text, codes, to_string, pad_left}

-- What the function takes from the singleton, from `ZS_USE_PID` and from `parseMaxPid`.
pub record Identity : Type 0 where
  pub use_pid : Bool
  pub max_pid : ℕ
  pub pid : ℕ
  pub hostname : Text
  pub size : ℕ
  pub rank : ℕ

-- `getSize()-1` is an `uint32_t`.
abbrev pub last_rank : ℕ → ℕ
last_rank size = (size + 2 ^ 32 - 1) % 2 ^ 32

unfoldable pub get_unique_filename : Identity → Text
get_unique_filename p =
    if p.use_pid
    then p.hostname ++ b'.' ∷ pad_left (length (to_string p.max_pid)) b'0' (to_string p.pid)
    else pad_left (length (to_string (last_rank p.size))) b'0' (to_string p.rank)

-- `ZeroSum::openLog`
unfoldable pub log_filename : Identity → Text
unfolding get_unique_filename
log_filename p = codes "zs." ++ (get_unique_filename p ++ codes ".log")
