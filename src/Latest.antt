-- ===== src/Latest.antt =====
-- The newest records of a tenant, page by page: `list_latest` of app/store.py, and app/emr_latest.py
-- with its cursors.
pub mod Rows
pub mod Cursor
pub mod RoundTrip
pub mod Service
pub mod Below
pub mod Paged
