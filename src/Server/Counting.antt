-- ===== src/Server/Counting.antt =====
-- pkg/server.go and pkg/metrics.go: lemmas on the number of open connections of a list.
use ion_cluster.Base.{
  ℕ, suc, ◌+◌, ◌≡◌, ◌≤◌, length-append, String, List, [], ◌∷◌, ◌++◌, length, arith,
}
use ion_cluster.Base.Int.{pos}
use ion_cluster.Metrics.{Gauges}
use ion_cluster.Server.{Served, forbidden, internal_error, unparsed, proxies, panics, opens}

-- How many of the connections are websockets of this node, and how many are proxied.
abbrev pub count_opens : List Served → ℕ
count_opens [] = 0
count_opens (opens ∷ l) = suc (count_opens l)
count_opens (s ∷ l) = count_opens l

abbrev pub count_proxied : List Served → ℕ
count_proxied [] = 0
count_proxied (proxies _ ∷ l) = suc (count_proxied l)
count_proxied (s ∷ l) = count_proxied l

-- The requests that wait for the end of a connection.
abbrev pub kept_open : Served → List Served
kept_open (proxies url) = proxies url ∷ []
kept_open opens = opens ∷ []
kept_open _ = []

abbrev pub Counts : Gauges → List Served → Type 0
Counts g l = (g.clients ≡ pos (count_opens l)) × (g.proxy_clients ≡ pos (count_proxied l))

pub count_opens-append : (l m : List Served) → count_opens (l ++ m) ≡ count_opens l + count_opens m
count_opens-append [] m = omega arith
count_opens-append (opens ∷ l) m = omega (arith, count_opens-append l m)
count_opens-append (s ∷ l) m = count_opens-append l m

pub count_proxied-append :
    (l m : List Served) → count_proxied (l ++ m) ≡ count_proxied l + count_proxied m
count_proxied-append [] m = omega arith
count_proxied-append (proxies _ ∷ l) m = omega (arith, count_proxied-append l m)
count_proxied-append (s ∷ l) m = count_proxied-append l m

pub append_opens-opens :
    (l m : List Served) → count_opens (l ++ opens ∷ m) ≡ suc (count_opens (l ++ m))
append_opens-opens l m = omega (arith, count_opens-append l (opens ∷ m), count_opens-append l m)

pub append_opens-proxied :
    (l m : List Served) → count_proxied (l ++ opens ∷ m) ≡ count_proxied (l ++ m)
append_opens-proxied l m =
    omega (arith, count_proxied-append l (opens ∷ m), count_proxied-append l m)

pub append_proxies-opens :
    (url : String) (l m : List Served) → count_opens (l ++ proxies url ∷ m) ≡ count_opens (l ++ m)
append_proxies-opens url l m =
    omega (arith, count_opens-append l (proxies url ∷ m), count_opens-append l m)

pub append_proxies-proxied :
    (url : String) (l m : List Served)
    → count_proxied (l ++ proxies url ∷ m) ≡ suc (count_proxied (l ++ m))
append_proxies-proxied url l m =
    omega (arith, count_proxied-append l (proxies url ∷ m), count_proxied-append l m)

-- A list of open connections is of these two kinds only.
abbrev pub AllOpen : List Served → Type 0
AllOpen l = count_opens l + count_proxied l ≡ length l

count_le_length : (l : List Served) → count_opens l + count_proxied l ≤ length l
count_le_length [] = omega arith
count_le_length (opens ∷ l) = omega (arith, count_le_length l)
count_le_length (proxies _ ∷ l) = omega (arith, count_le_length l)
count_le_length (forbidden ∷ l) = omega (arith, count_le_length l)
count_le_length (internal_error ∷ l) = omega (arith, count_le_length l)
count_le_length (unparsed ∷ l) = omega (arith, count_le_length l)
count_le_length (panics ∷ l) = omega (arith, count_le_length l)

count_le_suc :
    (s : Served) (l m : List Served)
    → count_opens (l ++ s ∷ m) + count_proxied (l ++ s ∷ m)
      ≤ suc (count_opens (l ++ m) + count_proxied (l ++ m))
count_le_suc opens l m = omega (
  arith,
  count_opens-append l (opens ∷ m),
  count_opens-append l m,
  count_proxied-append l (opens ∷ m),
  count_proxied-append l m,
)
count_le_suc (proxies url) l m = omega (
  arith,
  count_opens-append l (proxies url ∷ m),
  count_opens-append l m,
  count_proxied-append l (proxies url ∷ m),
  count_proxied-append l m,
)
count_le_suc forbidden l m = omega (
  arith,
  count_opens-append l (forbidden ∷ m),
  count_opens-append l m,
  count_proxied-append l (forbidden ∷ m),
  count_proxied-append l m,
)
count_le_suc internal_error l m = omega (
  arith,
  count_opens-append l (internal_error ∷ m),
  count_opens-append l m,
  count_proxied-append l (internal_error ∷ m),
  count_proxied-append l m,
)
count_le_suc unparsed l m = omega (
  arith,
  count_opens-append l (unparsed ∷ m),
  count_opens-append l m,
  count_proxied-append l (unparsed ∷ m),
  count_proxied-append l m,
)
count_le_suc panics l m = omega (
  arith,
  count_opens-append l (panics ∷ m),
  count_opens-append l m,
  count_proxied-append l (panics ∷ m),
  count_proxied-append l m,
)

pub remove-AllOpen : (s : Served) (l m : List Served) → AllOpen (l ++ s ∷ m) → AllOpen (l ++ m)
remove-AllOpen s l m all = omega (
  arith,
  all,
  count_le_suc s l m,
  count_le_length (l ++ m),
  length-append l (s ∷ m),
  length-append l m,
)

pub keep-AllOpen : (s : Served) (l : List Served) → AllOpen l → AllOpen (kept_open s ++ l)
keep-AllOpen opens l all = omega (arith, all)
keep-AllOpen (proxies _) l all = omega (arith, all)
keep-AllOpen forbidden l all = all
keep-AllOpen internal_error l all = all
keep-AllOpen unparsed l all = all
keep-AllOpen panics l all = all
