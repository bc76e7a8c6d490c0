-- ===== src/Utils.antt =====
-- src/utils.cpp, include/utils.h: the size of a data type. The children hold the byte codec.
pub mod Codec
pub mod Frames
mod Examples
use origin_ccl.Prelude.{ℕ}
use origin_ccl.Types.{DataType}

-- `GetDataTypeSize`
abbrev pub data_type_size : DataType → ℕ
data_type_size DataType.float32 = 4
data_type_size DataType.float64 = 8
data_type_size DataType.int32 = 4
data_type_size DataType.int64 = 8
data_type_size (DataType.other n) = 0
