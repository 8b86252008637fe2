-- ===== src/Files.antt =====
-- src/util/file_util.cpp. The file system is a parameter: `open_file` gives the contents that
-- `fopen` finds under a name. The log counts the streams that are open.
pub mod Whole
use solusek.Base.{
  ℕ, zero, suc, ◌+◌, ◌-◌, ◌%◌, Bool, true, false, List, [], ◌∷◌, ◌++◌, Option, none, some, ltb,
  if◌then◌else◌, Bytes, take, drop, length, u32_mod,
}

pub record Disk : Type 0 where
  pub open_file : Bytes → Option Bytes
  -- `ctime` of the modification time, as `getFileModTime` gives it.
  pub mod_time : Bytes → Bytes

pub record Log : Type 0 where
  -- The names given to `fopen`, the latest first.
  pub opened : List Bytes
  -- How many streams are open.
  pub handles : ℕ

-- `fopen`
abbrev pub fopen : Disk → Bytes → Log → Option Bytes × Log
fopen d name l = elim (d.open_file name) [
  | none ↦ (none, record l { opened = name ∷ l.opened })
  | some content ↦ (some content, record { opened = name ∷ l.opened; handles = suc l.handles })
]

abbrev pub fclose : Log → Log
fclose l = record l { handles = l.handles - 1 }

unfoldable pub read_text : Option Bytes × Log → Bytes × Log
read_text (none, l) = ([], l)
read_text (some content, l) = (if ltb 0 (length content) then content else [], fclose l)

-- `readTextFile`
unfoldable pub read_text_file : Disk → Bytes → Log → Bytes × Log
unfolding read_text
read_text_file d name l = read_text (fopen d name l)

-- The rounds of the loop of `readBinaryFile`: `n` is an `unsigned int` and the position in the
-- file, `rd` the size of the next read. `none` means that the fuel ran out.
unfoldable pub binary_rounds : ℕ → Bytes → ℕ → ℕ → Bytes → Option Bytes
binary_rounds zero content n rd r = none
binary_rounds (suc fuel) content n rd r =
    let rd' = if ltb (length content) ((n + 512) % u32_mod) then length content - n else rd in
    elim (ltb n (length content)) [
      | true ↦ binary_rounds fuel content ((n + 512) % u32_mod) rd' (r ++ take rd' (drop n content))
      | false ↦ some r
    ]

unfoldable pub read_binary : Option Bytes × Log → Option Bytes × Log
unfolding binary_rounds
read_binary (none, l) = (some [], l)
-- The stream is not closed.
read_binary (some content, l) = (binary_rounds (suc (length content)) content 0 512 [], l)

-- `readBinaryFile`
unfoldable pub read_binary_file : Disk → Bytes → Log → Option Bytes × Log
unfolding read_binary
read_binary_file d name l = read_binary (fopen d name l)
