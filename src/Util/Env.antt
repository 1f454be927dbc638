-- ===== src/Util/Env.antt =====
-- util/util.go: random numbers, addresses and the file system. What they return is an argument.
use totorrent.Base.{
  ℕ, ◌+◌, ◌-◌, Bool, true, false, not, [], Bytes, Option, none, some, ltb, if◌then◌else◌, Outcome,
  ok, err, panic, blocked, err_rand_byteslice, or_fail,
}

-- `rand.Intn(n)`, which panics unless n is positive; `draw` is a number below n.
unfoldable pub intn : (ℕ → ℕ) → ℕ → Outcome ℕ
intn draw n = if ltb 0 n then ok (draw n) else panic

-- `RandRange(min, max)`, for `min` at most `max`: the number that is drawn is added to `max`.
unfoldable pub rand_range : (ℕ → ℕ) → ℕ → ℕ → Outcome ℕ
unfolding intn
rand_range draw min max = elim (intn draw (max - min)) [
  | ok n ↦ ok (n + max)
  | err e ↦ err e
  | panic ↦ panic
  | blocked ↦ blocked
]

-- `RandByteSlice`; `read` gives the bytes of `rand.Read`, or its error.
unfoldable pub rand_byte_slice : (ℕ → Option Bytes) → ℕ → Outcome Bytes
rand_byte_slice read max = or_fail (read max) err_rand_byteslice

-- The types of `net.Addr` that are told apart.
pub data NetAddr : Type 0 where
  udp_addr : Bytes → ℕ → NetAddr
  tcp_addr : Bytes → ℕ → NetAddr
  other_addr : NetAddr

unfoldable pub get_ip_and_port_from_net_addr : NetAddr → Bytes × ℕ
get_ip_and_port_from_net_addr (udp_addr ip port) = (ip, port)
get_ip_and_port_from_net_addr (tcp_addr ip port) = (ip, port)
get_ip_and_port_from_net_addr other_addr = ([], 0)

-- `os.Stat`: an error, or whether the path is a directory.
unfoldable pub is_file : Option Bool → Bool
is_file none = false
is_file (some is_dir) = not is_dir

unfoldable pub is_directory : Option Bool → Bool
is_directory none = false
is_directory (some is_dir) = is_dir

-- `MkdirTempOrPanic`, with the directory that `os.MkdirTemp` makes, or its error.
unfoldable pub mkdir_temp_or_panic : Option Bytes → Outcome Bytes
mkdir_temp_or_panic none = panic
mkdir_temp_or_panic (some dir) = ok dir

-- `MkdirAllOrPanic`, for whether `os.MkdirAll` succeeds.
unfoldable pub mkdir_all_or_panic : Bool → Outcome (Unit {0})
mkdir_all_or_panic made = if made then ok tt else panic

-- `IsPortTaken`, for the connection of `net.DialTimeout`, nil where there is none.
unfoldable pub is_port_taken : Option Bytes → Bool
is_port_taken none = false
is_port_taken (some conn) = true
