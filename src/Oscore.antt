-- ===== src/Oscore.antt =====
-- applications/schc_worker_linux/src/uoscore_integration.c: the OSCORE proxy in front of the
-- uoscore library, whose two conversions are parameters.
use schc_work.Common.{ℕ, Bool, Option, none, some, Bytes, if◌then◌else◌}

-- `enum err` of the library, as far as the proxy tells its values apart.
pub data Err : Type 0 where
  ok buffer_to_small not_oscore_pkt first_request_after_reboot oscore_ssn_overflow : Err
  other : ℕ → Err

-- `coap_oscore_res_t`
pub data CoapOscoreRes : Type 0 where
  co_success co_buffer_error co_coap_error co_oscore_error co_echo_error co_not_oscore :
      CoapOscoreRes
  co_max_session_reached co_unknown_session : CoapOscoreRes

unfoldable pub uoscore_err_to_res : Err → CoapOscoreRes
uoscore_err_to_res ok = co_success
uoscore_err_to_res buffer_to_small = co_buffer_error
uoscore_err_to_res not_oscore_pkt = co_not_oscore
uoscore_err_to_res first_request_after_reboot = co_echo_error
uoscore_err_to_res oscore_ssn_overflow = co_oscore_error
uoscore_err_to_res (other n) = co_oscore_error

-- `plaintext_cb_t`: the callback that is handed to the library, or NULL.
pub data InnerCallback : Type 0 where
  inner_compression inner_decompression : InnerCallback

-- A conversion of the library on a packet, with the room at `out`: its error, and the bytes that
-- it wrote to `out`, whose number is `*out_size`.
abbrev pub Conversion : Type 0
Conversion = Option InnerCallback → Bytes → ℕ → Err × Bytes

-- `oscore_inner_schc_enabled` chooses the callback; the first argument is `coap2oscore`.
unfoldable pub coap_to_oscore : Conversion → Bool → Bytes → ℕ → CoapOscoreRes × Bytes
unfolding uoscore_err_to_res
coap_to_oscore coap2oscore inner packet room =
    let inner_cb = if inner then some inner_compression else none in
    let (r, out) = coap2oscore inner_cb packet room in (uoscore_err_to_res r, out)

unfoldable pub oscore_to_coap : Conversion → Bool → Bytes → ℕ → CoapOscoreRes × Bytes
unfolding uoscore_err_to_res
oscore_to_coap oscore2coap inner packet room =
    let inner_cb = if inner then some inner_decompression else none in
    let (r, out) = oscore2coap inner_cb packet room in (uoscore_err_to_res r, out)
