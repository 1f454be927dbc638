-- ===== src/Base/Errors.antt =====
-- What a Go call can do: return a value, return an error, panic, or block for ever. An error is known by the
-- sentinel that the code wraps (`print.ErrorWrapf(ERR_X, ...)`); the text is not kept.
use mathlib.Core.Path.{◌≡◌, refl}
use mathlib.Core.Option.{Option, none, some}

pub data Error : Type 0 where
  err_peer_listen : Error
  err_peer_listen_eof : Error
  err_peer_listen_timeout : Error
  err_peer_listen_reset : Error
  err_parse_peer : Error
  err_peermsg_func : Error
  err_requestpeermsg : Error
  err_peermsg_build : Error
  -- An error of the standard library, returned as it is.
  io_error : Error
  err_fileinfo_read_downloaded_data : Error
  err_fileinfo_assemble_blocks : Error
  err_fileinfo_assemble_blocks_already_exists : Error
  err_announceurl : Error
  err_query_announce : Error
  err_connect_peers : Error
  err_peerconn_write : Error
  err_peerconn_write_closed_conn : Error
  err_listen_for_peers : Error
  err_accept_conn_closed_conn : Error
  err_dial_peer : Error
  err_decode_file : Error
  err_rand_byteslice : Error
  err_download_torrent : Error
  err_inspect_torrent : Error

pub data Outcome {ℓ} (A : Type ℓ) : Type ℓ where
  ok : A → Outcome A
  err : Error → Outcome A
  panic : Outcome A
  blocked : Outcome A

infixl 5 ◌>>=◌ ◌>>◌
abbrev pub ◌>>=◌ {ℓ κ} : {A : Type ℓ} {B : Type κ} → Outcome A → (A → Outcome B) → Outcome B
ok a >>= f = f a
err e >>= f = err e
panic >>= f = panic
blocked >>= f = blocked

abbrev pub ◌>>◌ {ℓ} : {B : Type ℓ} → Outcome (Unit {0}) → Outcome B → Outcome B
m >> k = m >>= λ _. k

-- `if err != nil { return nil, ErrorWrapf(e, ...) }` behind a call of the standard library.
abbrev pub or_fail {ℓ} : {A : Type ℓ} → Option A → Error → Outcome A
or_fail none e = err e
or_fail (some a) e = ok a

-- The same behind a call of the program: the error is wrapped anew, a panic goes on.
abbrev pub wrap {ℓ} : {A : Type ℓ} → Outcome A → Error → Outcome A
wrap (ok a) e = ok a
wrap (err _) e = err e
wrap panic e = panic
wrap blocked e = blocked

-- A chain that succeeds, taken apart.
pub bind_ok {ℓ κ} :
    {A : Type ℓ} {B : Type κ} (m : Outcome A) (f : A → Outcome B) {b : B}
    → (m >>= f) ≡ ok b
    → (a : A) × (m ≡ ok a) × (f a ≡ ok b)
bind_ok (ok a) f h = (a, refl, h)
bind_ok (err e) f h = cc
bind_ok panic f h = cc
bind_ok blocked f h = cc

-- The four ways in which a call can go.
pub data Cases {ℓ} {A : Type ℓ} (m : Outcome A) : Type ℓ where
  is_ok : (a : A) → m ≡ ok a → Cases m
  is_err : (e : Error) → m ≡ err e → Cases m
  is_panic : m ≡ panic → Cases m
  is_blocked : m ≡ blocked → Cases m

pub Outcome-Cases {ℓ} : {A : Type ℓ} (m : Outcome A) → Cases m
Outcome-Cases (ok a) = is_ok a refl
Outcome-Cases (err e) = is_err e refl
Outcome-Cases panic = is_panic refl
Outcome-Cases blocked = is_blocked refl
