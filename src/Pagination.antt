-- ===== src/Pagination.antt =====
-- Lists in pages: apps/api/src/common/pagination, as the lists of notifications and of money requests
-- use it.
pub mod Keyset
pub mod Cursor
pub mod Order
pub mod Slices
pub mod Pages
pub mod Lists
mod Tests
