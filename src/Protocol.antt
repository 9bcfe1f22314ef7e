-- ===== src/Protocol.antt =====
-- internal/protocol/message.go and errors.go: the envelope, its types, the payloads and the codes.
pub mod Encoding
use remotty.Base.{
  ℕ, String, Bool, List, Option, none, some, if◌then◌else◌, ◌&&◌, ◌==◌, string_key, false,
}
use remotty.Base.Int.{ℤ, pos, beq_ℤ}
use remotty.Base.Json.{
  Json, Raw, Fields, bool, num, str, obj, end, field, read, fits, set_string, set_bool, set_int,
  set_strings, fits_string, fits_bool, fits_int, fits_strings, fields_of, is_object, of_strings,
}

pub data MessageType : Type 0 where
  msg_register msg_heartbeat msg_update msg_list_hosts msg_connect : MessageType
  msg_host_list msg_room_ready msg_peer_left : MessageType
  msg_offer msg_answer msg_ice_candidate msg_renegotiate : MessageType
  msg_auth msg_auth_ok msg_auth_fail : MessageType
  msg_input msg_output msg_resize : MessageType
  msg_screen_start msg_screen_stop msg_screen_frame msg_screen_resize : MessageType
  msg_mouse_move msg_mouse_click msg_mouse_scroll msg_key_press msg_key_release : MessageType
  msg_file_request msg_file_accept msg_file_reject msg_file_chunk msg_file_complete : MessageType
  msg_file_error msg_file_progress msg_file_cancel : MessageType
  msg_clipboard msg_clipboard_data msg_clipboard_request : MessageType
  msg_ping msg_pong msg_error : MessageType
  -- a type that the protocol does not name
  msg_unknown : String → MessageType

pub record Message : Type 0 where
  pub type : MessageType
  pub payload : Raw
  pub from : String
  pub to : String
  pub room : String
  pub id : String
  pub time : ℤ

abbrev pub new_message : MessageType → Json → Message
new_message t payload = record {
  type = t;
  payload = some payload;
  from = "";
  to = "";
  room = "";
  id = "";
  time = pos 0;
}

pub record RegisterPayload : Type 0 where
  pub name : String
  pub platform : String
  pub arch : String
  pub version : String
  pub features : Option (List String)
  pub device_id : String

pub record HostInfo : Type 0 where
  pub id : String
  pub name : String
  pub platform : String
  pub arch : String
  pub version : String
  pub online : Bool
  pub features : Option (List String)
  pub device_id : String
  pub ping : ℤ

pub record ConnectPayload : Type 0 where
  pub host_id : String
  pub password : String

pub record ErrorPayload : Type 0 where
  pub code : ℕ
  pub message : String

abbrev pub text_field : String → Fields → String
text_field k fs = read set_string k "" fs

abbrev pub text_fits : String → Fields → Bool
text_fits k fs = fits fits_string k fs

abbrev register_of : Fields → RegisterPayload
register_of fs = record {
  name = text_field "name" fs;
  platform = text_field "platform" fs;
  arch = text_field "arch" fs;
  version = text_field "version" fs;
  features = read set_strings "features" none fs;
  device_id = text_field "device_id" fs;
}

-- `json.Unmarshal` into a `RegisterPayload`; `none` is an error.
unfoldable pub decode_register : Raw → Option RegisterPayload
decode_register raw =
    let fs = fields_of raw in
    if is_object raw
      && text_fits "name" fs
      && text_fits "platform" fs
      && text_fits "arch" fs
      && text_fits "version" fs
      && fits fits_strings "features" fs
      && text_fits "device_id" fs
    then some (register_of fs)
    else none

abbrev pub host_info_of : Fields → HostInfo
host_info_of fs = record {
  id = text_field "id" fs;
  name = text_field "name" fs;
  platform = text_field "platform" fs;
  arch = text_field "arch" fs;
  version = text_field "version" fs;
  online = read set_bool "online" false fs;
  features = read set_strings "features" none fs;
  device_id = text_field "device_id" fs;
  ping = read set_int "ping" (pos 0) fs;
}

abbrev pub no_info : HostInfo
no_info = record {
  id = "";
  name = "";
  platform = "";
  arch = "";
  version = "";
  online = false;
  features = none;
  device_id = "";
  ping = pos 0;
}

-- What a value does to a field of type `HostInfo`.
abbrev pub set_info : HostInfo → Json → HostInfo
set_info old (obj fs) = record {
  id = read set_string "id" old.id fs;
  name = read set_string "name" old.name fs;
  platform = read set_string "platform" old.platform fs;
  arch = read set_string "arch" old.arch fs;
  version = read set_string "version" old.version fs;
  online = read set_bool "online" old.online fs;
  features = read set_strings "features" old.features fs;
  device_id = read set_string "device_id" old.device_id fs;
  ping = read set_int "ping" old.ping fs;
}
set_info old _ = old

-- `json.Unmarshal` into a `HostInfo`.
unfoldable pub decode_host_info : Raw → Option HostInfo
decode_host_info raw =
    let fs = fields_of raw in
    if is_object raw
      && text_fits "id" fs
      && text_fits "name" fs
      && text_fits "platform" fs
      && text_fits "arch" fs
      && text_fits "version" fs
      && fits fits_bool "online" fs
      && fits fits_strings "features" fs
      && text_fits "device_id" fs
      && fits fits_int "ping" fs
    then some (host_info_of fs)
    else none

-- `json.Unmarshal` into a `ConnectPayload`.
unfoldable pub decode_connect : Raw → Option ConnectPayload
decode_connect raw =
    let fs = fields_of raw in
    if is_object raw && text_fits "host_id" fs && text_fits "password" fs
    then some (record { host_id = text_field "host_id" fs; password = text_field "password" fs })
    else none

-- `json.Marshal` of a `HostInfo`: `device_id` and `ping` are left out when they are zero.
unfoldable pub encode_host_info : HostInfo → Json
encode_host_info h =
    let ping = (if beq_ℤ h.ping (pos 0) then end else field "ping" (num h.ping) end) in
    let device = (if h.device_id == "" then ping else field "device_id" (str h.device_id) ping) in
    obj (
      field "id" (str h.id) (
        field "name" (str h.name) (
          field "platform" (str h.platform) (
            field "arch" (str h.arch) (
              field "version" (str h.version) (
                field "online" (bool h.online)
                  (field "features" (of_strings h.features) device)))))))

-- `json.Marshal` of a `ConnectPayload`: an empty password is left out.
unfoldable pub encode_connect : ConnectPayload → Json
encode_connect c = obj (
    field "host_id" (str c.host_id)
      (if c.password == "" then end else field "password" (str c.password) end))

abbrev pub err_unauthorized : ℕ
err_unauthorized = 1001

abbrev pub err_host_not_found : ℕ
err_host_not_found = 2001

abbrev pub err_room_not_found : ℕ
err_room_not_found = 2002

abbrev pub err_invalid_payload : ℕ
err_invalid_payload = 3001

abbrev pub err_payload_too_large : ℕ
err_payload_too_large = 3004

abbrev pub err_invalid_state : ℕ
err_invalid_state = 4001

abbrev pub err_internal : ℕ
err_internal = 5001
