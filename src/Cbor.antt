-- ===== src/Cbor.antt =====
-- The CBOR codec of src/cbor.cpp and include/cbor/cbor.hpp.
pub mod Result
pub mod Buffer
pub mod Decode
pub mod Head
pub mod Kind
pub mod Skip
pub mod Value
pub mod SkipValue
pub mod PushSkip
pub mod Scalar
pub mod Match
pub mod Accepts
pub mod ScalarFinds
pub mod MatchFinds
pub mod Headers
pub mod Refinement
pub mod Total
pub mod TotalMatch
mod Tests
pub mod Json
pub mod Extend
pub mod Dispatch
