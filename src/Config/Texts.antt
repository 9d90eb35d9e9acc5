-- ===== src/Config/Texts.antt =====
-- The replies of the configuration service: the constants of src/parser/config_parserADT.c.
use pdc_pop3d.Prelude.{◌∷◌, [], ◌++◌}
use pdc_pop3d.CString.{Bytes, codes}

abbrev pub new_line : Bytes
new_line = 10 ∷ []

abbrev pub suc_buffer_size : Bytes
suc_buffer_size = codes "+SUC Buffer size: "

abbrev pub suc_logs_folder : Bytes
suc_logs_folder = codes "+SUC Logs folder: "

abbrev pub suc_maildir_folder : Bytes
suc_maildir_folder = codes "+SUC Maildir folder: "

abbrev pub suc_auth_token : Bytes
suc_auth_token = codes "+SUC Authorization token: "

abbrev pub suc_new_buff_size : Bytes
suc_new_buff_size = codes "+SUC New buffer size: "

abbrev pub suc_new_logs_folder : Bytes
suc_new_logs_folder = codes "+SUC New logs folder: "

abbrev pub suc_new_maildir_folder : Bytes
suc_new_maildir_folder = codes "+SUC New maildir folder: "

abbrev pub suc_new_auth_token : Bytes
suc_new_auth_token = codes "+SUC New authorization token: "

abbrev pub suc_historic_total_users : Bytes
suc_historic_total_users = codes "+SUC Historic total users: "

abbrev pub suc_concurrent_users : Bytes
suc_concurrent_users = codes "+SUC Concurrent users: "

abbrev pub suc_bytes_transferred : Bytes
suc_bytes_transferred = codes "+SUC Bytes transferred: "

abbrev pub suc_new_transformation_true : Bytes
suc_new_transformation_true = codes "+SUC Transformation set: true" ++ new_line

abbrev pub suc_new_transformation_false : Bytes
suc_new_transformation_false = codes "+SUC Transformation set: false" ++ new_line

abbrev pub suc_transformation_true : Bytes
suc_transformation_true = codes "+SUC Transformation active: true" ++ new_line

abbrev pub suc_transformation_false : Bytes
suc_transformation_false = codes "+SUC Transformation active: false" ++ new_line

abbrev pub suc_transformation_function : Bytes
suc_transformation_function = codes "+SUC Transformation function: "

abbrev pub suc_new_transformation_function : Bytes
suc_new_transformation_function = codes "+SUC New transformation function: "

abbrev pub suc_inf : Bytes
suc_inf =
    codes "+SUC Valid object codes: INF, HTU, CCU, BTF, BUF | LGF, MDF, ATT, TRF, TFN" ++ new_line

abbrev pub err_invalid_auth_token : Bytes
err_invalid_auth_token = codes "-ERR Invalid authorization token" ++ new_line

abbrev pub err_auth_token_length : Bytes
err_auth_token_length = codes "-ERR New authorization token must be 10 characters long" ++ new_line

abbrev pub err_executing_command : Bytes
err_executing_command = codes "-ERR Error executing command" ++ new_line

abbrev pub err_invalid_object_code : Bytes
err_invalid_object_code = codes "-ERR Invalid object code" ++ new_line

abbrev pub err_second_command_get_set : Bytes
err_second_command_get_set = codes "-ERR Second command must be GET or SET" ++ new_line

abbrev pub err_argument_expected_set : Bytes
err_argument_expected_set = codes "-ERR Argument expected for SET command" ++ new_line

abbrev pub err_no_argument_expected_get : Bytes
err_no_argument_expected_get = codes "-ERR No argument expected for GET command" ++ new_line

abbrev pub err_unknown_command : Bytes
err_unknown_command = codes "-ERR Unknown command" ++ new_line

abbrev pub err_argument_size : Bytes
err_argument_size = codes "Argument must be between 1 and 128 characters" ++ new_line

-- In `handle_configuration_requests`.
abbrev pub err_too_big : Bytes
err_too_big = codes "-ERR Command is too big\r\n"
