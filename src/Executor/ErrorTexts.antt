-- ===== src/Executor/ErrorTexts.antt =====
-- The names of errors that the executor prints to stderr, in src/executor/executor_helpers.cpp.
use microsql.Base.{Text, codes}
use microsql.Storage.Page
use microsql.Storage.Page.{PageError}
use microsql.Storage.Row
use microsql.Storage.Row.{RowError}
use microsql.Storage.TableFile
use microsql.Storage.TableFile.{TableFileError}
use microsql.Catalog
use microsql.Catalog.{CatalogError}

unfoldable pub table_file_error_str : TableFileError → Text
table_file_error_str TableFile.file_not_open = codes "FileNotOpen"
table_file_error_str TableFile.failed_to_open_file = codes "FailedToOpenFile"
table_file_error_str TableFile.failed_to_seek_page = codes "FailedToSeekPage"
table_file_error_str TableFile.failed_to_read_page = codes "FailedToReadPage"
table_file_error_str TableFile.failed_to_write_page = codes "FailedToWritePage"
table_file_error_str TableFile.failed_to_get_file_size = codes "FailedToGetFileSize"
table_file_error_str TableFile.failed_to_create_file = codes "FailedToCreateFile"

unfoldable pub catalog_error_str : CatalogError → Text
catalog_error_str Catalog.duplicate_table = codes "DuplicateTable"
catalog_error_str Catalog.file_not_open = codes "FileNotOpen"
catalog_error_str Catalog.unvalid_table_line_format = codes "UnvalidTableLineFormat"
catalog_error_str Catalog.unvalid_column_line_format = codes "UnvalidColumnLineFormat"
catalog_error_str Catalog.table_not_found = codes "TableNotFound"

unfoldable pub page_error_str : PageError → Text
page_error_str Page.invalid_row_length = codes "InvalidRowLength"
page_error_str Page.page_full = codes "PageFull"
page_error_str Page.slot_out_of_bounds = codes "SlotOutOfBounds"
page_error_str Page.deleted_slot = codes "SlotDeleted"

unfoldable pub row_error_str : RowError → Text
row_error_str Row.schema_mismatch = codes "SchemaMismatch"
row_error_str Row.data_type_not_supported = codes "DataTypeNotSupported"
row_error_str Row.text_too_long = codes "TextTooLong"
