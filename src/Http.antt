-- ===== src/Http.antt =====
-- The HTTP layer: the routes of app/main.py and the checks of app/schemas.py, over the operations of
-- app/service.py. FastAPI's own reading of a request is not in it.
pub mod Strings
pub mod Ranges
pub mod Content
pub mod Digests
pub mod Uploads
pub mod Responses
pub mod Sessions
pub mod Archives
pub mod Served
pub mod Handlers
