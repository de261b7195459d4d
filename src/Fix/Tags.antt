-- ===== src/Fix/Tags.antt =====
-- The tag numbers of crates/atomr-fix/src/message.rs.
use atomr.Base.{ℕ}

abbrev pub begin_string : ℕ
begin_string = 8

abbrev pub body_length : ℕ
body_length = 9

abbrev pub msg_type : ℕ
msg_type = 35

abbrev pub sender_comp_id : ℕ
sender_comp_id = 49

abbrev pub target_comp_id : ℕ
target_comp_id = 56

abbrev pub msg_seq_num : ℕ
msg_seq_num = 34

abbrev pub sending_time : ℕ
sending_time = 52

abbrev pub check_sum : ℕ
check_sum = 10

abbrev pub heart_bt_int : ℕ
heart_bt_int = 108

abbrev pub test_req_id : ℕ
test_req_id = 112

abbrev pub begin_seq_no : ℕ
begin_seq_no = 7

abbrev pub end_seq_no : ℕ
end_seq_no = 16

abbrev pub reset_seq_num_flag : ℕ
reset_seq_num_flag = 141

abbrev pub gap_fill_flag : ℕ
gap_fill_flag = 123

abbrev pub new_seq_no : ℕ
new_seq_no = 36

abbrev pub poss_dup_flag : ℕ
poss_dup_flag = 43

abbrev pub encrypt_method : ℕ
encrypt_method = 98

abbrev pub text : ℕ
text = 58

abbrev pub default_appl_ver_id : ℕ
default_appl_ver_id = 1137

abbrev pub cl_ord_id : ℕ
cl_ord_id = 11

abbrev pub symbol : ℕ
symbol = 55

abbrev pub side : ℕ
side = 54

abbrev pub order_qty : ℕ
order_qty = 38

abbrev pub ord_status : ℕ
ord_status = 39

abbrev pub exec_type : ℕ
exec_type = 150
