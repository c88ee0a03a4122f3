-- ===== src/LogStorm.antt =====
-- `LogStormController` of utils/logstorm_controller.h (under
-- src/drivers/seyond_lidar/src/inno_sdk/src): it thins out a log line that repeats, for the latest
-- `capacity_` lines. `none` is a failed `assert`, or the front of an empty list. Nodes are known by
-- their number in `nodes`; keys are strings of characters without a 0. Times are in milliseconds.
-- `get_stats` only formats, and is left out.
pub mod Rate
pub mod LongKeys
mod Tests
use ros2_perception.Prelude.{
  Key, is_same, find, assign, ℕ, zero, suc, ◌+◌, ◌-◌, ◌*◌, ◌%◌, Bool, true, false, ◌&&◌, ◌||◌,
  Option, none, some, List, [], ◌∷◌, ◌++◌, ◌==◌, ltb, leb, if◌then◌else◌, get_or, set, replicate,
  length, take,
}

pub record Node : Type 0 where
  pub key : Key
  pub target : ℕ
  pub count : ℕ
  pub interval : ℕ
  pub last_print_ms : ℕ
  pub last_trigger_ms : ℕ

unfoldable pub reset : Node → ℕ → Node
reset n now_ms = record n {
  target = 10;
  count = 0;
  interval = 1;
  last_print_ms = now_ms;
  last_trigger_ms = now_ms;
}

abbrev pub new_node : ℕ → Node
new_node time_ms = record {
  key = [];
  target = 10;
  count = 0;
  interval = 1;
  last_print_ms = time_ms;
  last_trigger_ms = time_ms;
}

pub record Lru : Type 0 where
  pub nodes : List Node
  pub key2node : List (Key × ℕ)
  pub list : List ℕ
  pub pool : List ℕ
  pub capacity : ℕ

-- The numbers of `n` nodes from `i` on.
abbrev pub numbers : ℕ → ℕ → List ℕ
numbers i zero = []
numbers i (suc n) = i ∷ numbers (suc i) n

-- The constructor.
unfoldable pub new_lru : ℕ → Lru
new_lru capacity = record {
  nodes = replicate capacity (new_node 0);
  key2node = [];
  list = [];
  pool = numbers 0 capacity;
  capacity = capacity;
}

-- The operations of the map from keys to nodes are `find` and `assign` of Prelude/Maps, and this one.
abbrev pub erase : List (Key × ℕ) → Key → List (Key × ℕ)
erase [] key = []
erase (e ∷ es) key = if is_same e.0 key then es else e ∷ erase es key

abbrev pub remove : List ℕ → ℕ → List ℕ
remove [] n = []
remove (x ∷ xs) n = if x == n then remove xs n else x ∷ remove xs n

-- Whether the line is new again: time went back, or the last print or the last call is long past.
abbrev pub is_stale : Node → ℕ → Bool
is_stale n now_ms =
    ltb now_ms n.last_print_ms
    || leb 400000 (now_ms - n.last_print_ms)
    || leb 70000 (now_ms - n.last_trigger_ms)

-- The call of a line whose node is there: whether to print it, and the node after it.
unfoldable pub count_call : Node → ℕ → Bool × Node
count_call n now_ms =
    let count = n.count + 1 in
    if count % n.interval == 0
    then (
      true,
      (record n {
        count = count;
        interval = if leb n.target count then n.interval * 10 else n.interval;
        target = if leb n.target count then n.target * 10 else n.target;
        last_print_ms = now_ms;
        last_trigger_ms = now_ms;
      }),
    )
    else (false, (record n { count = count; last_trigger_ms = now_ms }))

unfoldable pub refresh : Node → ℕ → Node
refresh n now_ms = if is_stale n now_ms then reset n now_ms else n

-- The loop of `push` that gives nodes back while the map is full: what it leaves of the list, the
-- map and the pool.
unfoldable pub evict :
    ℕ → List Node → List ℕ → List (Key × ℕ) → List ℕ → Option (List ℕ × (List (Key × ℕ) × List ℕ))
evict limit nodes [] entries pool =
    if leb limit (length entries) then none else some ([], (entries, pool))
evict limit nodes (n ∷ list) entries pool =
    let key = (get_or nodes n (new_node 0)).key in
    let rest = evict limit nodes list (erase entries key) (pool ++ (n ∷ [])) in
    if leb limit (length entries) then rest else some (n ∷ list, (entries, pool))

-- What `snprintf` leaves of a key in `kMaxBufSize` characters.
abbrev pub stored : Key → Key
stored key = if leb 256 (length key) then take 255 key else key

-- The part of `push` behind its loop.
unfoldable pub place : Lru → Key → ℕ → Option Lru
place s key now_ms = elim s.pool [
  | [] ↦ none
  | n ∷ rest ↦ some (record s {
    nodes = set s.nodes n (record (new_node now_ms) { key = stored key; count = 1 });
    key2node = assign s.key2node (stored key) n;
    list = s.list ++ (n ∷ []);
    pool = rest;
  })
]

unfoldable pub push : Lru → Key → ℕ → Option Lru
push s key now_ms = elim (evict s.capacity s.nodes s.list s.key2node s.pool) [
  | none ↦ none
  | some r ↦ place (record s { list = r.0; key2node = r.1.0; pool = r.1.1 }) key now_ms
]

-- Whether to print the line, how often it came, and the controller after it.
unfoldable pub check : Lru → Key → ℕ → Option (Bool × (ℕ × Lru))
check s key now_ms = elim (find s.key2node key) [
  | none ↦ elim (push s key now_ms) [ none ↦ none | some r ↦ some (true, (0, r)) ]
  | some n ↦
      let called = count_call (refresh (get_or s.nodes n (new_node 0)) now_ms) now_ms in
      some (
        called.0,
        (
          called.1.count,
          (record s { nodes = set s.nodes n called.1; list = remove s.list n ++ (n ∷ []) }),
        ),
      )
]
