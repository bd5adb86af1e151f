-- ===== src/Event.antt =====
-- jfsnotify/fsnotify.go: events, the bit mask of their operations and its text, and the options
-- of AddWith. An `Op` is a uint32, kept as a number.
pub mod Text
use fs_lib.Prelude.{
  equal, codes, true, false, if◌then◌else◌, ℕ, Bool, List, [], ◌∷◌, ◌==◌, bit_and, Bytes,
}

abbrev pub Op : Type 0
Op = ℕ

-- Create Op = 1 << iota, and the following
abbrev pub create : Op
create = 1

abbrev pub write : Op
write = 2

abbrev pub remove : Op
remove = 4

abbrev pub rename : Op
rename = 8

abbrev pub chmod : Op
chmod = 16

pub record Event : Type 0 where
  pub name : Bytes
  pub op : Op
  pub key : Bytes

-- func (o Op) Has(h Op) bool
unfoldable pub has : Op → Op → Bool
has o h = bit_and o h == h

-- func (e Event) Has(op Op) bool
unfoldable pub event_has : Event → Op → Bool
unfolding has
event_has e op = has e.op op

pub record WithOpts : Type 0 where
  pub bufsize : ℕ

abbrev pub AddOpt : Type 0
AddOpt = WithOpts → WithOpts

abbrev pub default_opts : WithOpts
default_opts = record { bufsize = 65536 }

apply_opts : WithOpts → List AddOpt → WithOpts
apply_opts with [] = with
apply_opts with (o ∷ opts) = apply_opts (o with) opts

-- getOptions
unfoldable pub get_options : List AddOpt → WithOpts
unfolding apply_opts
get_options opts = apply_opts default_opts opts

-- WithBufferSize
unfoldable pub with_buffer_size : ℕ → AddOpt
with_buffer_size bytes opt = record opt { bufsize = bytes }

-- recursivePath, over filepath.Base and filepath.Dir
unfoldable pub recursive_path : (Bytes → Bytes) → (Bytes → Bytes) → Bytes → Bytes × Bool
recursive_path base dir path =
    if equal (base path) (codes "...") then (dir path, true) else (path, false)
