-- ===== src/Router/Setup.antt =====
-- src/trip.c: `trip_new`, `trip_setopt` and the checks before a router starts.
use libtrp.Base.{ℕ, ◌^◌, Bool, true, false, not, ◌&&◌, Option, none, some, [], ◌==◌}
use libtrp.Poll.{time_end}
use libtrp.Router.State.{start, Flags, Router, Env}

-- `enum trip_preset`
pub data Preset : Type 0 where
  router server client multiclient : Preset

-- The limits of a router.
pub record Limits : Type 0 where
  pub max_conn : ℕ
  pub max_in : ℕ
  pub max_out : ℕ
  pub max_packet_read_count : ℕ
  pub max_packet_send_count : ℕ
  pub max_connection_send_count : ℕ
  pub max_streams : ℕ
  pub buflen : ℕ

-- `_TRIPR_DEFAULT_MAX_CONN`
abbrev default_max_conn : ℕ
default_max_conn = 2 ^ 19

abbrev default_limits : Limits
default_limits = record {
  max_conn = default_max_conn;
  max_in = default_max_conn;
  max_out = default_max_conn;
  max_packet_read_count = 1024;
  max_packet_send_count = 1024;
  max_connection_send_count = 128;
  max_streams = 8;
  buflen = 1200;
}

abbrev default_flags : Flags
default_flags = record {
  allow_in = true;
  allow_out = true;
  plain_open = false;
  plain_isig = false;
  plain_osig = false;
  plain_comm = false;
  free_packet = false;
  always_ready = false;
}

-- What a preset changes.
unfoldable pub apply_preset : Preset → Limits × Flags → Limits × Flags
apply_preset router (l, f) = (l, f)
apply_preset server (l, f) = (record l { max_out = 0 }, record f { allow_out = false })
apply_preset client (l, f) = (record l { max_out = 1; max_in = 0 }, record f { allow_in = false })
apply_preset multiclient (l, f) = (record l { max_in = 0 }, record f { allow_in = false })

-- `trip_new`, where there is memory: all else is zero.
unfoldable pub new : Preset → Limits × Router
unfolding apply_preset
new preset =
    let (limits, flags) = apply_preset preset (default_limits, default_flags) in
    (
      limits,
      record {
        state = start;
        statedeadline = 0;
        statetimer = false;
        error = 0;
        errmsg = none;
        mindeadline = time_end;
        timeout_bind = 1000;
        timeout_close = 0;
        timeout_unbind = 0;
        flag = flags;
        haspacket = false;
        attached = false;
        callbacks = record {
          watch = false;
          timeout = false;
          screen = false;
          connection = false;
          stream = false;
          message = false;
        };
        calls = [];
      },
    )

-- `enum trip_router_opt` with its arguments: whether a pointer is not NULL, and the value behind one to an
-- `int`. Keys and the user's data are no part of this state.
pub data Opt : Type 0 where
  open_kp sign_kp user_data unknown : Opt
  packet watch_cb timeout_cb screen_cb connection_cb stream_cb message_cb : Bool → Opt
  allow_plain_open allow_plain_isig allow_plain_osig allow_plain_comm : Option ℕ → Opt

-- `val && (*val)`
abbrev pub is_set : Option ℕ → Bool
is_set none = false
is_set (some n) = not (n == 0)

abbrev pub einval : ℕ
einval = 22

-- `trip_setopt`: the code, and the router.
unfoldable pub setopt : Env → Opt → Router → ℕ × Router
setopt env open_kp r = (0, r)
setopt env sign_kp r = (0, r)
setopt env user_data r = (0, r)
setopt env unknown r = (einval, r)
setopt env (packet true) r = (0, record r { haspacket = true; attached = false })
setopt env (packet false) r = (
  0,
  record r {
    haspacket = env.packet_ok;
    attached = false;
    flag = record (r.flag) { free_packet = true };
  },
)
setopt env (watch_cb b) r = (0, record r { callbacks = record (r.callbacks) { watch = b } })
setopt env (timeout_cb b) r = (0, record r { callbacks = record (r.callbacks) { timeout = b } })
setopt env (screen_cb b) r = (0, record r { callbacks = record (r.callbacks) { screen = b } })
setopt env (connection_cb b) r =
    (0, record r { callbacks = record (r.callbacks) { connection = b } })
setopt env (stream_cb b) r = (0, record r { callbacks = record (r.callbacks) { stream = b } })
setopt env (message_cb b) r = (0, record r { callbacks = record (r.callbacks) { message = b } })
setopt env (allow_plain_open v) r =
    (0, record r { flag = record (r.flag) { plain_open = is_set v } })
setopt env (allow_plain_isig v) r =
    (0, record r { flag = record (r.flag) { plain_isig = is_set v } })
setopt env (allow_plain_osig v) r =
    (0, record r { flag = record (r.flag) { plain_osig = is_set v } })
setopt env (allow_plain_comm v) r =
    (0, record r { flag = record (r.flag) { plain_comm = is_set v } })

-- The test of `_trip_verify`; `screen` is not among those that are required.
unfoldable pub has_required : Router → Bool
has_required r =
    let c = r.callbacks in c.watch && c.timeout && c.connection && c.stream && c.message
