-- ===== src/Config.antt =====
-- include/config.h, include/util.h and common/util.cpp: sizes, error codes and their messages, and
-- the hash of a block's name.
use Prim.Native.Nat.{bit_and, bit_xor}
use pfs.Base.{ℕ, ◌-◌, ◌*◌, ◌/◌, ◌%◌, ◌^◌, String, ◌==◌, if◌then◌else◌}
use pfs.Base.Int.{ℤ, pos, negsuc}

abbrev pub pfs_block_size : ℕ
pfs_block_size = 1

abbrev pub strip_size : ℕ
strip_size = 1

abbrev pub num_file_servers : ℕ
num_file_servers = 5

abbrev pub client_cache_size : ℕ
client_cache_size = 2

abbrev pub pfs_block_size_in_bytes : ℕ
pfs_block_size_in_bytes = pfs_block_size * 1024

abbrev pub client_cache_size_in_bytes : ℕ
client_cache_size_in_bytes = client_cache_size * 1024 * 1024

abbrev pub hash_buckets : ℕ
hash_buckets = client_cache_size_in_bytes / pfs_block_size_in_bytes / 2

abbrev pub hash_buckets_mask : ℕ
hash_buckets_mask = hash_buckets - 1

-- `STRIP_SIZE * pfsBlockSizeInBytes`
abbrev pub strip_bytes : ℕ
strip_bytes = strip_size * pfs_block_size_in_bytes

abbrev pub no_error : ℤ
no_error = pos 0

abbrev pub error_already_exists : ℤ
error_already_exists = negsuc 0

abbrev pub error_does_not_exist : ℤ
error_does_not_exist = negsuc 1

abbrev pub error_close_unopened_file : ℤ
error_close_unopened_file = negsuc 2

abbrev pub error_delete_open_file : ℤ
error_delete_open_file = negsuc 3

abbrev pub error_reopen_file : ℤ
error_reopen_file = negsuc 4

abbrev pub error_get_permission_unopened_file : ℤ
error_get_permission_unopened_file = negsuc 5

-- `getErrorMessage`. The argument of `negsuc` is one less than the number behind the minus sign.
pub get_error_message : ℤ → String
get_error_message (pos n) = ""
get_error_message (negsuc n) =
    if n == 0
    then "Error : Already Exists"
    else if n == 1
    then "Error : Does not exist"
    else if n == 2
    then "Error : Closing an unopened file"
    else if n == 3
    then "Error : Deleting an opened file"
    else if n == 4
    then "Error : Reopening a file"
    else if n == 5
    then "Error : Getting r/w permission for an unopened file"
    else "Error : Unknown Error"

-- `hashPFS`, over the standard library's `std::hash<uint32_t>`; `size_t` has 64 bits.
unfoldable pub hash_pfs : (std_hash : ℕ → ℕ) → ℕ → ℕ → ℕ
hash_pfs std_hash fdes block_addr =
    bit_and (bit_xor (std_hash fdes) (std_hash block_addr * 2 % 2 ^ 64)) hash_buckets_mask
