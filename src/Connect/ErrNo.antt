-- ===== src/Connect/ErrNo.antt =====
-- head/err_no.h: the error numbers that the connection server answers with.
use gpush.Prelude.{ℕ}
use gpush.Prelude.Int32.{minus}

abbrev pub input_format_error : ℕ
input_format_error = minus 1

abbrev pub create_session_fail : ℕ
create_session_fail = minus 10

abbrev pub invalid_session_id : ℕ
invalid_session_id = minus 20

abbrev pub miss_to_session_id : ℕ
miss_to_session_id = minus 22

abbrev pub no_service : ℕ
no_service = minus 30

abbrev pub invalid_type : ℕ
invalid_type = minus 60

abbrev pub inner_error : ℕ
inner_error = minus 100
