-- ===== src/Text.antt =====
-- cpp/common/common_rl/common.cpp: string helpers. A child for each family of functions.
pub mod Split
pub mod Gsub
pub mod Date
pub mod Hex
pub mod Case
pub mod Trim
pub mod Mconvert
mod Tests
