-- ===== src/Qt.antt =====
-- What the program takes from Qt Core: QString, QByteArray and QUuid as data, the list functions
-- of QString that it calls, and an interface for the conversions that Qt implements.
pub mod Decimal
pub mod Plain
pub mod Api
pub mod Text
