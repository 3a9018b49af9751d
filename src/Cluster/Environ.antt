-- ===== src/Cluster/Environ.antt =====
-- src/pyka/cluster/ring.py, `Ring.from_env`: a ring from what a container is told.
pub mod Ordinal
use pyka.Common.{
  ℕ, List, [], ◌∷◌, ◌++◌, Bool, Option, none, some, Result, ok, err, value_error, ◌>>=◌, ◌==◌,
  if◌then◌else◌,
}
use pyka.Common.Int.{ℤ, pos, eq_ℤ}
use pyka.Python.Text.{Str, Piece}
use pyka.Python.Number.{int_of, is_numeral}

-- `os.environ`: PYKA_BROKERS, PYKA_PORT, HOSTNAME and so on, each with its text where it is set.
pub record Environ : Type 0 where
  pub brokers : Option Str
  pub port : Option Str
  pub hostname : Option Str
  pub address_template : Option Str
  pub ring : Option Str
  pub data_dir : Option Str
  pub partitions : Option Str
  pub sync_records : Option Str
  pub sync_millis : Option Str
  pub segment_bytes : Option Str
  pub allow_orphans : Option Str

-- os.environ.get(name, default)
abbrev pub get : Option Str → Str → Str
get none default = default
get (some text) default = text

-- os.environ.get(name) or default
abbrev pub get_or : Option Str → Str → Str
get_or none default = default
get_or (some []) default = default
get_or (some (c ∷ cs)) default = c ∷ cs

-- what follows the last hyphen of the first text, or else the second text
unfoldable pub after_hyphen : Str → Str → Str
after_hyphen [] found = found
after_hyphen (c ∷ cs) found =
    let here = after_hyphen cs cs in
    let rest = after_hyphen cs found in if c == 0x2d then here else rest

-- hostname.rpartition("-")[2], which is the whole text where there is no hyphen
unfoldable pub suffix : Str → Str
unfolding after_hyphen
suffix hostname = after_hyphen hostname hostname

-- the ordinal of this broker
unfoldable pub me_of : ℤ → Str → Result ℤ
unfolding int_of is_numeral
me_of brokers text =
    if is_numeral text
    then int_of text
    else if eq_ℤ brokers (pos 1)
    then ok (pos 0)
    else err value_error

-- "localhost:"
abbrev localhost : Str
localhost = 0x6c ∷ 0x6f ∷ 0x63 ∷ 0x61 ∷ 0x6c ∷ 0x68 ∷ 0x6f ∷ 0x73 ∷ 0x74 ∷ 0x3a ∷ []

-- "9092"
abbrev default_port : Str
default_port = 0x39 ∷ 0x30 ∷ 0x39 ∷ 0x32 ∷ []

-- "1"
abbrev pub one : Str
one = 0x31 ∷ []

-- os.environ.get("PYKA_ADDRESS_TEMPLATE", f"localhost:{port}")
abbrev pub template_text : Environ → Str
template_text env = get env.address_template (localhost ++ get env.port default_port)

-- `cls` is the constructor of the class. `pieces` is how `str.format` reads a format string, and
-- `hostname` is socket.gethostname().
module _ {ℓ} {R : Type ℓ} (cls : ℤ → ℤ → List Piece → Result R) (pieces : Str → List Piece) where
  unfoldable pub from_env : Environ → Str → Result R
  unfolding int_of suffix me_of
  from_env env hostname = do
    brokers ← int_of (get env.brokers one)
    me ← me_of brokers (suffix (get_or env.hostname hostname))
    cls brokers me (pieces (template_text env))
