-- ===== src/Tests/Instances.antt =====
-- An interpreter and its library for tests: floats are integers with an infinity, only digits are the text of a
-- number, numbers are written in unary, texts are not escaped, and compression puts a byte in front.
use Prim.Native.Char.{code}
use Prim.Native.String as Str
use kilix_telemetry.Common.{
  String, ◌*◌, ◌+◌, ◌-◌, leb, ◌&&◌, if◌then◌else◌, ℕ, suc, ℤ, pos, negsuc, ltb_ℤ, leb_ℤ, ◌==ℤ◌,
  Bool, true, false, Option, none, some, Result, ok, err, overflow_error, List, [], ◌∷◌, ◌++◌,
  replicate, length, arith, refl,
}
use kilix_telemetry.Bytes.{Bytes}
use kilix_telemetry.Values.{Python, dict}
use kilix_telemetry.Values.Laws.{PythonLaws}
use kilix_telemetry.Json.{JsonText, ascii}
use kilix_telemetry.Model.{SystemMetrics, ProcessMetrics, Snapshot}
use kilix_telemetry.Model.ToDict.{to_dict}
use kilix_telemetry.Ring.{Codec, CodecLaws}

-- `none` is an infinity.
abbrev pub Float : Type 0
Float = Option ℤ

abbrev pub lt_float : Float → Float → Bool
lt_float (some a) (some b) = ltb_ℤ a b
lt_float (some a) none = true
lt_float none b = false

abbrev pub le_float : Float → Float → Bool
le_float (some a) (some b) = leb_ℤ a b
le_float a none = true
le_float none (some b) = false

abbrev pub eq_float : Float → Float → Bool
eq_float (some a) (some b) = a ==ℤ b
eq_float none none = true
eq_float _ _ = false

abbrev pub is_finite_float : Float → Bool
is_finite_float none = false
is_finite_float (some a) = true

abbrev pub int_of_test_float : Float → Result ℤ
int_of_test_float none = err overflow_error
int_of_test_float (some a) = ok a

abbrev pub first_float : List Float → Float
first_float [] = some (pos 0)
first_float (f ∷ rest) = f

-- The number that digits name, in front of which `n` was read.
abbrev pub decimal_from : ℕ → String → Option ℤ
decimal_from n Str.[] = some (pos n)
decimal_from n (Str.◌∷◌ c s) =
    let rest = decimal_from (n * 10 + (code c - b'0')) s in
    if leb b'0' (code c) && leb (code c) b'9' then rest else none

abbrev pub decimal : String → Option ℤ
decimal Str.[] = none
decimal (Str.◌∷◌ c s) = decimal_from 0 (Str.◌∷◌ c s)

abbrev pub python : Python Float
python = record {
  zero_float = some (pos 0);
  hundred_float = some (pos 100);
  minus_one_float = some (negsuc 0);
  lt = lt_float;
  le = le_float;
  eq = eq_float;
  is_finite = is_finite_float;
  float_of_int = λ z. some (some z);
  int_of_float = int_of_test_float;
  float_of_str = λ s. none;
  int_of_str = decimal;
  str_of = λ value. "None";
  sum_float = first_float;
}

pub python_laws : PythonLaws python
python_laws = record {
  zero_finite = refl;
  hundred_finite = refl;
  zero_lt_hundred = refl;
  minus_one_finite = refl;
  minus_one_below = refl;
}

abbrev pub int_digits : ℤ → Bytes
int_digits (pos n) = b'+' ∷ replicate n b'1'
int_digits (negsuc n) = b'-' ∷ replicate (suc n) b'1'

abbrev pub float_digits : Float → Bytes
float_digits none = ascii "Infinity"
float_digits (some z) = b'.' ∷ int_digits z

abbrev pub json_text : JsonText Float
json_text = record {
  int_text = int_digits;
  float_text = float_digits;
  string_text = λ s. b'"' ∷ ascii s ++ b'"' ∷ [];
}

abbrev pub unpacked : Bytes → Option Bytes
unpacked [] = none
unpacked (b ∷ raw) = some raw

abbrev pub system : SystemMetrics Float
system = record {
  cpu_percent = some (some (pos 5));
  load_1 = some (pos 0);
  load_5 = some (pos 0);
  load_15 = some (pos 0);
  logical_cpus = pos 2;
  uptime_seconds = some (pos 9);
  memory_total = pos 8;
  memory_available = pos 3;
  memory_free = pos 2;
  memory_buffers = pos 0;
  memory_cached = pos 1;
  memory_reclaimable = pos 0;
  memory_shared = pos 0;
  memory_active = pos 0;
  memory_inactive = pos 0;
  memory_anon = pos 0;
  memory_slab = pos 0;
  memory_page_tables = pos 0;
  memory_kernel_stack = pos 0;
  memory_dirty = pos 0;
  memory_writeback = pos 0;
  swap_total = pos 0;
  swap_free = pos 0;
  pressure = ("cpu", ("some_avg10", some (pos 1)) ∷ []) ∷ [];
  vm = ("pgfault", pos 7) ∷ [];
  per_cpu_percent = some (some (pos 5)) ∷ none ∷ [];
  cpu_frequency_mhz = [];
  memory_huge_total = pos 0;
  memory_huge_free = pos 0;
  memory_huge_page_size = pos 0;
}

abbrev pub process : ℕ → ℕ → ProcessMetrics Float
process pid ppid = record {
  pid = pos pid;
  ppid = pos ppid;
  start_ticks = pos 3;
  cpu_ticks = pos 4;
  cpu_cores = some (pos 1);
  rss_bytes = pos 6;
  pss_bytes = none;
  virtual_bytes = pos 7;
  uid = pos 10;
  name = "sh";
  state = "S";
  threads = pos 1;
  command = "sh -c true";
  anon_bytes = pos 0;
  file_bytes = pos 0;
  shared_bytes = pos 0;
}

-- 1 is the parent of 2, 2 of 3, and 9 has a parent that is not in the table.
abbrev pub table : List (ProcessMetrics Float)
table = process 3 2 ∷ process 1 0 ∷ process 9 8 ∷ process 2 1 ∷ []

abbrev pub snapshot : Snapshot Float
snapshot = record {
  sequence = pos 1;
  wall_time_ns = pos 11;
  monotonic_ns = pos 12;
  interval_ns = pos 0;
  boot_id = "boot";
  system = system;
  thermal = [];
  processes = table;
  fans = [];
  schema = pos 1;
  panes = [];
  processes_total = pos 4;
  processes_truncated = false;
}

-- A decoder that reads back this one record.
abbrev pub codec : Codec Float
codec = record {
  text = json_text;
  compress = λ raw. 120 ∷ raw;
  decompress = unpacked;
  crc32 = length;
  loads = λ raw. some (dict (to_dict snapshot));
  is_decode_error = λ raw. true;
}

pub codec_laws : CodecLaws codec
codec_laws = record { decompress-compress = λ raw. refl; compress-nonempty = λ raw. omega arith }
