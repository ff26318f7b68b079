-- ===== src/Python.antt =====
-- What the program takes from Python: exceptions as values, and JSON documents.
mod Exceptions
mod Documents
unfoldable pub use Exceptions.*
unfoldable pub use Documents.*
