-- ===== src/Collect/Stat.antt =====
-- `_parse_stat` and `_raw_process`: one process from the texts below /proc/<pid>.
use Prim.Native.Char.{code}
use Prim.Native.String as Str
use kilix_telemetry.Common.{
  ℕ, suc, ℤ, pos, ◌+ℤ◌, ◌-ℤ◌, ◌*ℤ◌, ◌==ℤ◌, max_ℤ, leb_ℤ, leb, ◌==◌, String, str_eq, Bool, true,
  ◌&&◌, ◌||◌, Option, none, some, List, [], ◌∷◌, length, get_elem?, Result, ok, err, value_error,
  index_error, if◌then◌else◌, ◌>>=◌,
}
use kilix_telemetry.Values.{Python, int, prefix}
use kilix_telemetry.Text.{Unicode, split, strip, find, rfind, suffix_from, safe_text, text_or}
use kilix_telemetry.Dict.{lookup, assign, or_default}
use kilix_telemetry.Collect.{Table, key_values, nonnegative, amount_of}

-- What `_parse_stat` returns.
pub record Stat : Type 0 where
  pub ppid : ℤ
  pub start_ticks : ℤ
  pub cpu_ticks : ℤ
  pub child_cpu_ticks : ℤ
  pub rss_bytes : ℤ
  pub virtual_bytes : ℤ
  pub name : String
  pub state : String
  pub threads : ℤ

-- `_RawProcess`
pub record RawProcess : Type 0 where
  pub pid : ℤ
  pub ppid : ℤ
  pub start_ticks : ℤ
  pub cpu_ticks : ℤ
  pub child_cpu_ticks : ℤ
  pub rss_bytes : ℤ
  pub virtual_bytes : ℤ
  pub uid : ℤ
  pub name : String
  pub state : String
  pub threads : ℤ
  pub command : String
  pub anon_bytes : ℤ
  pub file_bytes : ℤ
  pub shared_bytes : ℤ

-- `_ProcessMeta`
pub record ProcessMeta : Type 0 where
  pub refreshed_ns : ℤ
  pub uid : ℤ
  pub name : String
  pub command : String
  pub anon_bytes : ℤ
  pub file_bytes : ℤ
  pub shared_bytes : ℤ

-- What a process directory holds: its name, and the texts of its files; `cmdline` is decoded.
pub record ProcessFiles : Type 0 where
  pub directory : String
  pub stat : String
  pub status : String
  pub cmdline : String

-- The pair `(pid, start_ticks)` that names a process for as long as the machine runs.
abbrev pub Identity : Type 0
Identity = ℤ × ℤ

unfoldable pub same_process : Identity → Identity → Bool
same_process (pid, start) (other, other_start) = pid ==ℤ other && start ==ℤ other_start

abbrev pub MetaCache : Type 0
MetaCache = List (Identity × ProcessMeta)

-- `.replace(b"\0", b" ")`
unfoldable pub spaced : String → String
spaced Str.[] = ""
spaced (Str.◌∷◌ c s) =
    let rest = spaced s in if code c == 0 then Str.◌++◌ " " rest else Str.◌∷◌ c rest

-- `fields[i]`
unfoldable pub field_at : List String → ℕ → Result String
field_at fields i = elim (get_elem? fields i) [ none ↦ err index_error | some text ↦ ok text ]

-- `except ValueError`
abbrev pub caught_stat : Result Stat → Result (Option Stat)
caught_stat (ok stat) = ok (some stat)
caught_stat (err value_error) = ok none
caught_stat (err e) = err e

module _ {F : Type 0} (py : Python F) where
  unfoldable pub int_of_text : String → Result ℤ
  int_of_text text = elim (py.int_of_str text) [ none ↦ err value_error | some z ↦ ok z ]

  -- `int(fields[i])`
  unfoldable pub int_field : List String → ℕ → Result ℤ
  int_field fields i = do text ← field_at fields i; int_of_text text

module _ {F : Type 0} (py : Python F) (unicode : Unicode) where
  -- The tuple of `_parse_stat`; `command` is the text between the parentheses.
  unfoldable pub stat_of : ℤ → String → ℤ → List String → Result Stat
  stat_of pid command page_size fields = do
    ppid ← int_field py fields 1
    start ← int_field py fields 19
    user ← int_field py fields 11
    system ← int_field py fields 12
    child_user ← int_field py fields 13
    child_system ← int_field py fields 14
    rss ← int_field py fields 21
    virtual ← int_field py fields 20
    state ← field_at fields 0
    threads ← int_field py fields 17
    ok (record {
      ppid = max_ℤ (pos 0) ppid;
      start_ticks = max_ℤ (pos 0) start;
      cpu_ticks = max_ℤ (pos 0) (user +ℤ system);
      child_cpu_ticks = max_ℤ (pos 0) (child_user +ℤ child_system);
      rss_bytes = max_ℤ (pos 0) rss *ℤ page_size;
      virtual_bytes = max_ℤ (pos 0) virtual;
      name = text_or (safe_text unicode command 80) (py.str_of (int pid));
      state = text_or (safe_text unicode state 8) "?";
      threads = max_ℤ (pos 1) threads;
    })

  -- `_parse_stat` from both parentheses on.
  unfoldable pub stat_between : ℤ → String → ℤ → ℕ → ℕ → Result (Option Stat)
  stat_between pid text page_size left right =
      let fields = split (suffix_from (suc right) text) in
      let command = suffix_from (suc left) (prefix right text) in
      let read = caught_stat (stat_of pid command page_size fields) in
      if leb right left || leb (length fields) 21 then ok none else read

  -- `_parse_stat`
  unfoldable pub parse_stat : ℤ → String → ℤ → Result (Option Stat)
  parse_stat pid text page_size = elim (find b'(' text) [
    | none ↦ ok none
    | some left ↦ elim (rfind b')' text) [
      | none ↦ ok none
      | some right ↦ stat_between pid text page_size left right
    ]
  ]

  -- `_status_bytes`
  unfoldable pub status_bytes : Table → String → ℤ
  status_bytes status key =
      or_default (pos 0) (amount_of py unicode (split (or_default "" (lookup str_eq key status))))

  unfoldable pub uid_of : List String → ℤ
  uid_of [] = pos 0
  uid_of (first ∷ rest) = or_default (pos 0) (nonnegative py first)

  -- The refreshed entry of the metadata cache.
  unfoldable pub process_meta : ProcessFiles → Stat → ℤ → ProcessMeta
  process_meta files stat now_ns =
      let status = key_values files.status in
      let command =
        text_or (strip (spaced files.cmdline)) (Str.◌++◌ "[" (Str.◌++◌ stat.name "]")) in
      record {
        refreshed_ns = now_ns;
        uid = uid_of (split (or_default "0" (lookup str_eq "Uid" status)));
        name =
            text_or (safe_text unicode (or_default stat.name (lookup str_eq "Name" status)) 80)
              stat.name;
        command = safe_text unicode command 4096;
        anon_bytes = status_bytes status "RssAnon";
        file_bytes = status_bytes status "RssFile";
        shared_bytes = status_bytes status "RssShmem";
      }

  -- `meta is None or now_ns - meta.refreshed_ns >= self._metadata_interval_ns`
  unfoldable pub is_stale : ℤ → ℤ → Option ProcessMeta → Bool
  is_stale now_ns interval_ns none = true
  is_stale now_ns interval_ns (some meta) = leb_ℤ interval_ns (now_ns -ℤ meta.refreshed_ns)

  -- The entry that `_raw_process` uses, and the cache behind it.
  unfoldable pub metadata :
      ProcessFiles → Stat → ℤ → ℤ → Identity → MetaCache → ProcessMeta × MetaCache
  metadata files stat now_ns interval_ns identity cache =
      let fresh = process_meta files stat now_ns in
      let cached = lookup same_process identity cache in
      if is_stale now_ns interval_ns cached
      then (fresh, assign same_process identity fresh cache)
      else (or_default fresh cached, cache)

  unfoldable pub raw_of_meta : ℤ → Stat → ProcessMeta → RawProcess
  raw_of_meta pid stat meta = record {
    pid = pid;
    ppid = stat.ppid;
    start_ticks = stat.start_ticks;
    cpu_ticks = stat.cpu_ticks;
    child_cpu_ticks = stat.child_cpu_ticks;
    rss_bytes = stat.rss_bytes;
    virtual_bytes = stat.virtual_bytes;
    uid = meta.uid;
    name = meta.name;
    state = stat.state;
    threads = stat.threads;
    command = meta.command;
    anon_bytes = meta.anon_bytes;
    file_bytes = meta.file_bytes;
    shared_bytes = meta.shared_bytes;
  }

  -- `_raw_process` behind `_parse_stat`.
  unfoldable pub process_of_stat :
      ℤ → ℤ → ℤ → ProcessFiles → MetaCache → Option Stat → Option RawProcess × MetaCache
  process_of_stat interval_ns now_ns pid files cache none = (none, cache)
  process_of_stat interval_ns now_ns pid files cache (some stat) =
      let (meta, left) = metadata files stat now_ns interval_ns (pid, stat.start_ticks) cache in
      (some (raw_of_meta pid stat meta), left)

  -- `_raw_process` from the PID on, with the metadata cache that it leaves.
  unfoldable pub raw_process :
      ℤ → ℤ → ℤ → ℤ → ProcessFiles → MetaCache → Result (Option RawProcess × MetaCache)
  raw_process page_size interval_ns now_ns pid files cache = do
    stat ← parse_stat pid files.stat page_size
    ok (process_of_stat interval_ns now_ns pid files cache stat)
