-- ===== src/Modbus/Selection.antt =====
-- The arguments of the clients that `create_modbus_client` makes.
use mathlib.Core.Path.{subst}
use bbjsensescada.Common.{
  ℕ, ◌≡◌, refl, sym, ◌⊎◌, inl, inr, Bool, true, false, List, [], ◌∷◌, String, ◌==◌, string_eq,
  if◌then◌else◌, Bool-cases,
}
use bbjsensescada.Common.Int.{ℤ, pos, eqb_ℤ}
use bbjsensescada.Python.{Result, ok, err, type_error, value_error, ◌>>=◌, bind_ok, ok-injective}
use bbjsensescada.Python.Text.{is_one_of, upper, strip, codes}
use bbjsensescada.Python.Value.{Value, Repr, str, to_str, or_default, truthy}
use bbjsensescada.Codec.{normalize_parity, normalize_stop_bits, parity_of, stop_bits_of}
use bbjsensescada.Modbus.{
  Settings, Client, serial, tcp, get_value, int_or, port_or, resolve_serial_port,
  create_serial_client, create_tcp_client, is_rtu, is_tcp, create_modbus_client, host_of,
}

abbrev pub IsParity : String → Type 0
IsParity p = (p ≡ "N") ⊎ ((p ≡ "E") ⊎ (p ≡ "O"))

abbrev pub IsStopBits : ℕ → Type 0
IsStopBits n = (n ≡ 1) ⊎ (n ≡ 2)

parity_of-IsParity : (s : List ℕ) → IsParity (parity_of s)
unfolding parity_of
parity_of-IsParity s =
    three (is_one_of s ("NONE" ∷ "N" ∷ [])) (is_one_of s ("EVEN" ∷ "E" ∷ []))
      (is_one_of s ("ODD" ∷ "O" ∷ []))
  where
    three : (n e o : Bool) → IsParity (if n then "N" else if e then "E" else if o then "O" else "N")
    three true e o = inl refl
    three false true o = inr (inl refl)
    three false false true = inr (inr refl)
    three false false false = inl refl

normalize_parity-IsParity : (R : Repr) (v : Value) → IsParity (normalize_parity R v)
unfolding normalize_parity
normalize_parity-IsParity R v =
    parity_of-IsParity (upper (strip (codes (to_str R (or_default (str "N") v)))))

stop_bits_of-IsStopBits : (r : Result ℤ) (n : ℕ) → stop_bits_of r ≡ ok n → IsStopBits n
unfolding stop_bits_of
stop_bits_of-IsStopBits (ok v) n h = elim (Bool-cases (eqb_ℤ v (pos 2))) [
  | inl two ↦ inr (sym (ok-injective (rw two at h)))
  | inr other ↦ inl (sym (ok-injective (rw other at h)))
]
stop_bits_of-IsStopBits (err (type_error s)) n h = inl (sym (ok-injective h))
stop_bits_of-IsStopBits (err (value_error s)) n h = inl (sym (ok-injective h))
stop_bits_of-IsStopBits (err _) n h = cc

-- What a client is made of: for a serial line a port and one of the parities and stop bits that
-- pymodbus documents, for TCP the address of the connection; the kind follows the communication type.
abbrev pub IsConfigured : Settings → List ℕ → Value → Client → Type 0
IsConfigured S c connection (serial port baudrate parity stop_bits) =
    (is_rtu c ≡ true) × ((port == "") ≡ false) × IsParity parity × IsStopBits stop_bits
IsConfigured S c connection (tcp host port) =
    (is_rtu c ≡ false)
    × (is_tcp c ≡ true)
    × (v : Value) × (get_value "ip_address" connection ≡ ok v)
    × (truthy v ≡ true)
    × (host ≡ to_str S.repr v)

port_or-filled : (d p q : String) → port_or d p ≡ ok q → (q == "") ≡ false
unfolding port_or
port_or-filled d p q h = elim (Bool-cases (p == "")) [
  | inr given ↦ let same : p ≡ q = ok-injective (rw given at h) in rw (sym same) given
  | inl empty ↦ elim (Bool-cases (d == "")) [
    | inr default ↦
        let same : d ≡ q = ok-injective (rw (empty, default) at h) in rw (sym same) default
    | inl nothing ↦
        let raised : err (value_error "Serial port is not configured") ≡ ok q =
          rw (empty, nothing) at h in
        cc
  ]
]

serial-IsConfigured :
    (S : Settings) (c : List ℕ) (connection : Value) (k : Client)
    → is_rtu c ≡ true
    → create_serial_client S connection ≡ ok k
    → IsConfigured S c connection k
unfolding create_serial_client resolve_serial_port normalize_stop_bits
serial-IsConfigured S c connection k rtu h =
    let (port, resolved, h1) = bind_ok (resolve_serial_port S connection) _ h in
    let (baudrate, _, h2) = bind_ok (int_or "baudrate" (pos 9600) connection) _ h1 in
    let (parity, _, h3) = bind_ok (get_value "parity" connection) _ h2 in
    let (stop_bits, stopped, ends) =
      bind_ok (get_value "stop_bits" connection >>= normalize_stop_bits S.arithmetic) _ h3 in
    let (v, _, taken) = bind_ok (get_value "serial_port" connection) _ resolved in
    let (w, _, counted) =
      bind_ok (get_value "stop_bits" connection) (normalize_stop_bits S.arithmetic) stopped in
    let whole : IsConfigured S c connection
        (serial port baudrate (normalize_parity S.repr parity) stop_bits) =
      (
        rtu,
        port_or-filled S.default_serial_port _ port taken,
        normalize_parity-IsParity S.repr parity,
        stop_bits_of-IsStopBits _ stop_bits counted,
      ) in
    subst (λ k. IsConfigured S c connection k) (ok-injective ends) whole

host_of-truthy :
    (S : Settings) (v : Value) (host : String)
    → host_of S v ≡ ok host
    → (truthy v ≡ true) × (host ≡ to_str S.repr v)
unfolding host_of
host_of-truthy S v host h = elim (Bool-cases (truthy v)) [
  | inl is_set ↦ (is_set, sym (ok-injective (rw is_set at h)))
  | inr empty ↦
      let raised : err (value_error "IP address is not configured") ≡ ok host = rw empty at h in cc
]

tcp-IsConfigured :
    (S : Settings) (c : List ℕ) (connection : Value) (k : Client)
    → is_rtu c ≡ false
    → is_tcp c ≡ true
    → create_tcp_client S connection ≡ ok k
    → IsConfigured S c connection k
unfolding create_tcp_client host_of
tcp-IsConfigured S c connection k not_rtu is h =
    let (host, made, h1) = bind_ok (get_value "ip_address" connection >>= host_of S) _ h in
    let (port, _, ends) = bind_ok (int_or "tcp_port" (pos 502) connection) _ h1 in
    let (v, has, named) = bind_ok (get_value "ip_address" connection) (host_of S) made in
    let (is_set, same) = host_of-truthy S v host named in
    let whole : IsConfigured S c connection (tcp host port) = (not_rtu, is, v, has, is_set, same) in
    subst (λ k. IsConfigured S c connection k) (ok-injective ends) whole

-- A client that `create_modbus_client` makes is of the kind that the communication type asks for. A
-- serial one has a port that is not empty, a parity of N, E or O and 1 or 2 stop bits, whatever the
-- cloud sent; a TCP one has the text of an address that is not empty.
pub create_modbus_client-IsConfigured :
    (S : Settings) (c : List ℕ) (connection : Value) (k : Client)
    → create_modbus_client S c connection ≡ ok k
    → IsConfigured S c connection k
unfolding create_modbus_client
create_modbus_client-IsConfigured S c connection k h = elim (Bool-cases (is_rtu c)) [
  | inl rtu ↦ serial-IsConfigured S c connection k rtu (rw rtu at h)
  | inr not_rtu ↦ elim (Bool-cases (is_tcp c)) [
    | inl is ↦ tcp-IsConfigured S c connection k not_rtu is (rw (not_rtu, is) at h)
    | inr unknown ↦
        let raised : err (value_error "Unsupported communication type") ≡ ok k =
          rw (not_rtu, unknown) at h in
        cc
  ]
]
